-- ===== src/Rebalancing/Drift/History.antt =====
-- What the history of a portfolio answers, against the list of all the snapshots that were taken of it.
use atraport_api.Prelude.{
  ℕ, zero, suc, ◌-◌, ◌≤◌, min, String, Option, none, some, List, [], ◌∷◌, ◌++◌, ◌≡◌, refl, sym, ap,
  ◌∙◌, arith, length, leb, take, drop, eq_iff, length-append, take_all, take-take, Bool-cases, inl,
  inr, if◌then◌else◌,
}
use atraport_api.Prelude.JsMap
use atraport_api.Rebalancing.Drift.{DriftConfig, snapshot}
use atraport_api.Rebalancing.Drift.Service.{
  DriftCalculator, DriftAlert, DriftHistoryEntry, new_calculator, ConfigChange, create_config,
  update_found, update_config, persist_snapshot, history_entry, calculate_drift, acknowledge_found,
  acknowledge_alert, register_webhook, reverse, slice_last, or_none, max_history, get_history,
}
use atraport_api.Rebalancing.Drift.Duplicates.{
  Operation, creates, updates, calculates, acknowledges, registers, perform, run,
}
use mathlib.Core.List.{append_assoc, append-nil}
use mathlib.Core.Path.{subst}
use native.Mathlib.Numerals.{unary_clauses}
use text.Mathlib.Text.{◌==◌}

module _ {ℓ} {A : Type ℓ} where
  reverse_snoc : (xs : List A) (x : A) → reverse (xs ++ (x ∷ [])) ≡ x ∷ reverse xs
  unfolding reverse
  reverse_snoc [] x = refl
  reverse_snoc (y ∷ ys) x = ap (λ zs. zs ++ (y ∷ [])) (reverse_snoc ys x)

  length-reverse : (xs : List A) → length (reverse xs) ≡ length xs
  unfolding reverse
  length-reverse [] = refl
  length-reverse (x ∷ xs) = omega (arith, length-reverse xs, length-append (reverse xs) (x ∷ []))

  take-append_short : (n : ℕ) (xs ys : List A) → n ≤ length xs → take n (xs ++ ys) ≡ take n xs
  take-append_short zero xs ys h = refl
  take-append_short (suc n) [] ys h = absurd (omega arith)
  take-append_short (suc n) (x ∷ xs) ys h =
      ap (λ zs. x ∷ zs) (take-append_short n xs ys (omega arith))

  -- What is left of a list when all but its last items are dropped, from the last one back.
  reverse-drop : (n : ℕ) (xs : List A) → reverse (drop (length xs - n) xs) ≡ take n (reverse xs)
  unfolding reverse
  reverse-drop zero [] = refl
  reverse-drop (suc n) [] = let nothing : 0 - suc n ≡ 0 = omega arith in rw nothing refl
  reverse-drop n (x ∷ xs) = elim (Bool-cases (leb n (length xs))) [
    | inl short ↦
        let h : n ≤ length xs = ground arith in
        let kept : suc (length xs) - n ≡ suc (length xs - n) = omega arith in
        let same : take n (reverse xs ++ (x ∷ [])) ≡ take n (reverse xs) =
          take-append_short n (reverse xs) (x ∷ []) (omega (arith, length-reverse xs)) in
        rw kept (reverse-drop n xs ∙ sym same)
    | inr long ↦
        let h : suc (length xs) ≤ n = ground arith in
        let none_dropped : suc (length xs) - n ≡ 0 = omega arith in
        rw none_dropped
          (sym (take_all n (reverse (x ∷ xs)) (omega (arith, length-reverse (x ∷ xs)))))
  ]

  take-drop_last : (n : ℕ) (xs : List A) → 1 ≤ n → reverse (slice_last n xs) ≡ take n (reverse xs)
  unfolding slice_last
  take-drop_last zero xs h = absurd (omega arith)
  take-drop_last (suc n) xs h = reverse-drop (suc n) xs

  take-take-min : (n k : ℕ) (xs : List A) → take n (take k xs) ≡ take (min n k) xs
  take-take-min zero k xs = simp unary_clauses refl
  take-take-min (suc n) zero xs = simp unary_clauses refl
  take-take-min (suc n) (suc k) [] = simp unary_clauses refl
  take-take-min (suc n) (suc k) (x ∷ xs) =
      simp unary_clauses (ap (λ ys. x ∷ ys) (take-take-min n k xs))

-- The entry of the history that an operation adds for a portfolio, if it adds one.
abbrev pub entry_by : String → Operation → ℕ → DriftCalculator → List DriftHistoryEntry
entry_by pid (calculates id assets snapshot_id ids) now s =
    if id == pid
    then history_entry snapshot_id (snapshot (JsMap.get id s.configs) id assets now) ∷ []
    else []
entry_by pid (creates id low high url enabled) now s = []
entry_by pid (updates id change) now s = []
entry_by pid (acknowledges id by) now s = []
entry_by pid (registers id portfolio_id url events secret) now s = []

-- All of them, newest first.
abbrev pub entries_of : String → List (ℕ × Operation) → DriftCalculator → List DriftHistoryEntry
entries_of pid [] s = []
entries_of pid ((now, op) ∷ ops) s = entries_of pid ops (perform op now s) ++ entry_by pid op now s

update-history :
    (id : String) (change : ConfigChange) (now : ℕ) (s : DriftCalculator)
    (found : Option DriftConfig)
    → (update_found id change now s found).1.history ≡ s.history
update-history id change now s none = refl
update-history id change now s (some existing) = refl

acknowledge-history :
    (id : String) (by : Option String) (now : ℕ) (s : DriftCalculator) (found : Option DriftAlert)
    → (acknowledge_found id by now s found).1.history ≡ s.history
acknowledge-history id by now s none = refl
acknowledge-history id by now s (some alert) = refl

-- The kept entries are the newest of a list of entries.
abbrev Newest : String → List DriftHistoryEntry → DriftCalculator → Type 0
Newest pid log s = reverse (or_none (JsMap.get pid s.history)) ≡ take max_history log

newest_push :
    (e : DriftHistoryEntry) (kept log : List DriftHistoryEntry)
    → reverse kept ≡ take max_history log
    → reverse (slice_last max_history (kept ++ (e ∷ []))) ≡ take max_history (e ∷ log)
newest_push e kept log h =
    take-drop_last max_history (kept ++ (e ∷ [])) (omega arith)
    ∙ ap (take max_history) (reverse_snoc kept e)
    ∙ ap (λ (es : List DriftHistoryEntry). take max_history (e ∷ es)) h
    ∙ take-take max_history e log

perform-Newest :
    (pid : String) (op : Operation) (now : ℕ) (log : List DriftHistoryEntry) (s : DriftCalculator)
    → Newest pid log s
    → Newest pid (entry_by pid op now s ++ log) (perform op now s)
unfolding create_config update_config calculate_drift persist_snapshot acknowledge_alert
    register_webhook
perform-Newest pid (creates id low high url enabled) now log s h = h
perform-Newest pid (updates id change) now log s h =
    rw (update-history id change now s (JsMap.get id s.configs)) h
perform-Newest pid (calculates id assets snapshot_id ids) now log s h =
    elim (Bool-cases (id == pid)) [
      | inl same ↦
          let e : id ≡ pid = ground (arith, eq_iff id pid) in
          let here : reverse (or_none (JsMap.get id s.history)) ≡ take max_history log = rw e h in
          rw (JsMap.get-set id pid _ s.history) (rw same (newest_push _ _ log here))
      | inr other ↦ rw (JsMap.get-set id pid _ s.history) (rw other h)
    ]
perform-Newest pid (acknowledges id by) now log s h =
    rw (acknowledge-history id by now s (JsMap.get id s.alerts)) h
perform-Newest pid (registers id portfolio_id url events secret) now log s h = h

run-Newest :
    (pid : String) (ops : List (ℕ × Operation)) (log : List DriftHistoryEntry) (s : DriftCalculator)
    → Newest pid log s
    → Newest pid (entries_of pid ops s ++ log) (run ops s)
run-Newest pid [] log s h = h
run-Newest pid ((now, op) ∷ ops) log s h =
    let later = run-Newest pid ops _ (perform op now s) (perform-Newest pid op now log s h) in
    subst (λ es. Newest pid es (run ops (perform op now s)))
      (sym (append_assoc (entries_of pid ops (perform op now s)) (entry_by pid op now s) log)) later

-- A limit of 0 asks for all that is kept.
abbrev pub shown : ℕ → ℕ
shown zero = max_history
shown (suc limit) = min (suc limit) max_history

reverse-slice_last :
    (limit : ℕ) (kept log : List DriftHistoryEntry)
    → reverse kept ≡ take max_history log
    → reverse (slice_last limit kept) ≡ take (shown limit) log
unfolding slice_last
reverse-slice_last zero kept log h = h
reverse-slice_last (suc limit) kept log h =
    reverse-drop (suc limit) kept
    ∙ ap (take (suc limit)) h
    ∙ take-take-min (suc limit) max_history log

-- After any operations on a new service, the history of a portfolio answers the entries of the snapshots that
-- were taken of it, newest first, as many as the limit, but at most 1000; where the limit is 0, 1000.
pub get_history_lem :
    (pid : String) (limit : ℕ) (ops : List (ℕ × Operation))
    → get_history pid limit (run ops new_calculator)
      ≡ take (shown limit) (entries_of pid ops new_calculator)
unfolding get_history reverse JsMap.get
get_history_lem pid limit ops = reverse-slice_last limit _ _ (
    subst (λ es. Newest pid es (run ops new_calculator))
      (append-nil (entries_of pid ops new_calculator)) (run-Newest pid ops [] new_calculator refl))
