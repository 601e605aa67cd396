-- ===== src/Automation/Scheduler/Log.antt =====
-- The log of an automation is bounded and holds the newest executions.
use openpalm.Base.{
  ℕ, zero, suc, ◌-◌, ◌≤◌, ◌<◌, ◌≡◌, refl, sym, ap, ◌∙◌, arith, ◌++◌, List, [], ◌∷◌, Bool-cases, inl,
  inr, Text, text_eq, text_beq_iff, get, get-set, length, length-append, length-drop, drop, ltb,
  or_else, if◌then◌else◌, ◌==◌,
}
use mathlib.Core.List.{reverse, append-nil, append_assoc}
use openpalm.Automation.Scheduler.{
  ExecutionLogEntry, Logs, max_log_entries, record_execution, get_execution_log,
}

module _ {A : Type 0} where
  abbrev pub last_of : ℕ → List A → List A
  last_of n xs = drop (length xs - n) xs

  drop-append : (k : ℕ) (xs ys : List A) → k ≤ length xs → drop k (xs ++ ys) ≡ drop k xs ++ ys
  drop-append zero xs ys h = refl
  drop-append (suc k) [] ys h = absurd (omega arith)
  drop-append (suc k) (x ∷ xs) ys h = drop-append k xs ys (omega arith)

  drop-one-drop : (k : ℕ) (xs : List A) → drop 1 (drop k xs) ≡ drop (suc k) xs
  drop-one-drop zero [] = refl
  drop-one-drop zero (x ∷ xs) = refl
  drop-one-drop (suc k) [] = refl
  drop-one-drop (suc k) (x ∷ xs) = drop-one-drop k xs

  last_of-short : (n : ℕ) (xs : List A) → length xs ≤ n → last_of n xs ≡ xs
  last_of-short n xs h = let e : length xs - n ≡ 0 = omega arith in rw e refl

  last_of-last_of :
      (n : ℕ) (xs : List A) (x : A) → last_of n (last_of n xs ++ x ∷ []) ≡ last_of n (xs ++ x ∷ [])
  last_of-last_of n xs x = elim (Bool-cases (ltb n (length xs))) [
    | inr e ↦ ap (λ l. last_of n (l ++ x ∷ [])) (last_of-short n xs (ground arith))
    | inl e ↦
        let long : n < length xs = ground arith in
        let k : ℕ = length xs - n in
        let whole : length (xs ++ x ∷ []) - n ≡ suc k = omega (arith, length-append xs (x ∷ [])) in
        let part : length (drop k xs ++ x ∷ []) - n ≡ 1 =
          omega (arith, length-append (drop k xs) (x ∷ []), length-drop k xs) in
        ap (λ j. drop j (drop k xs ++ x ∷ [])) part
        ∙ ap (drop 1) (sym (drop-append k xs (x ∷ []) (omega arith)))
        ∙ drop-one-drop k (xs ++ x ∷ [])
        ∙ ap (λ j. drop j (xs ++ x ∷ [])) (sym whole)
  ]

-- The executions of one automation among those of all, in their order.
unfoldable pub executions_of : Text → List (Text × ExecutionLogEntry) → List ExecutionLogEntry
executions_of name [] = []
executions_of name ((file, entry) ∷ es) =
    let rest = executions_of name es in if file == name then entry ∷ rest else rest

-- The log that they leave, from `logs` on.
unfoldable pub record_all : List (Text × ExecutionLogEntry) → Logs → Logs
record_all [] logs = logs
record_all ((file, entry) ∷ es) logs = record_all es (record_execution file entry logs)

abbrev log_of : Text → Logs → List ExecutionLogEntry
log_of name logs = or_else (get name logs) []

record-last_of :
    (file name : Text) (entry : ExecutionLogEntry) (logs : Logs)
    → log_of name (record_execution file entry logs) ≡ (
        if file == name
        then last_of max_log_entries (log_of name logs ++ entry ∷ [])
        else log_of name logs)
unfolding record_execution
record-last_of file name entry logs =
    let entries = log_of file logs ++ entry ∷ [] in
    let kept =
      (if ltb max_log_entries (length entries)
        then drop (length entries - max_log_entries) entries
        else entries) in
    ground (
      arith,
      text_beq_iff file name,
      get-set file name kept logs,
      last_of-short max_log_entries entries,
    )

record_all-last_of :
    (name : Text) (es : List (Text × ExecutionLogEntry)) (before : List ExecutionLogEntry)
    (logs : Logs)
    → log_of name logs ≡ last_of max_log_entries before
    → log_of name (record_all es logs) ≡ last_of max_log_entries (before ++ executions_of name es)
unfolding record_all executions_of
record_all-last_of name [] before logs h =
    h ∙ ap (last_of max_log_entries) (sym (append-nil before))
record_all-last_of name ((file, entry) ∷ es) before logs h = elim (Bool-cases (file == name)) [
  | inr e ↦ rw e (
      record_all-last_of name es before (record_execution file entry logs)
        (record-last_of file name entry logs ∙ rw e h))
  | inl e ↦ rw e (
      record_all-last_of name es (before ++ entry ∷ []) (record_execution file entry logs) (
        record-last_of file name entry logs
        ∙ rw e (rw h (last_of-last_of max_log_entries before entry)))
      ∙ ap (last_of max_log_entries) (append_assoc before (entry ∷ []) (executions_of name es)))
]

-- After any executions of any automations, the log of an automation holds exactly its own newest
-- 50, or all of them if there are fewer, the newest first.
pub log-last_of :
    (name : Text) (es : List (Text × ExecutionLogEntry))
    → get_execution_log name (record_all es [])
      ≡ reverse (last_of max_log_entries (executions_of name es))
unfolding get_execution_log get
log-last_of name es = ap reverse (record_all-last_of name es [] [] refl)
