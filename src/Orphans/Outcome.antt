-- ===== src/Orphans/Outcome.antt =====
-- What a pass over bindings comes to: every binding is read once, and the orphan log says what
-- the reads found.
use qlabs_catalog_sync.Prelude.{
  ℕ, true, List, [], ◌∷◌, map, Option, none, some, Result, ok, err, length, ◌≡◌, refl, sym, ap, ◌∙◌,
  subst, ◌⊎◌, inl, inr, arith,
}
use qlabs_catalog_sync.Prelude.Dict
use qlabs_catalog_sync.Prelude.Distinct.{DistinctBy, DistinctBy-map}
use qlabs_catalog_sync.Models.{IdentityRef}
use qlabs_catalog_sync.State.Rows.{RowKey, row_key_eq, Db}
use qlabs_catalog_sync.State.UnitOfWork.{perform_all}
use qlabs_catalog_sync.State.Queries.{IdentityBinding, list_orphans}
use qlabs_catalog_sync.Orphans.Checks.{
  Check, Source, PassError, check_one, check_all, put, wrong_endpoint, store_raised,
}
use qlabs_catalog_sync.Orphans.Pass.{
  ReconciliationReport, row_key, writes_for, open_ids, reconcile_bindings, report_for,
  first_foreign, Outcome,
}
use qlabs_catalog_sync.Orphans.Writes.{
  verdict, settled_row, writes_for-row, writes_for-log, committed-cases,
}

abbrev pub binding_of : IdentityBinding × Check → IdentityBinding
binding_of (b, _) = b

-- The reads of some bindings, one after the other, the latest first.
abbrev pub read_each : List IdentityBinding → List IdentityRef → List IdentityRef
read_each [] history = history
read_each (b ∷ bs) history = read_each bs (b.identity ∷ history)

module _ (source : Source) (now : ℕ) where
  pub check_all-ok :
      (bs : List IdentityBinding) (db : Db) (history : List IdentityRef)
      (checks : List (IdentityBinding × Check)) (reads : List IdentityRef)
      → check_all source bs db history ≡ (ok checks, reads)
      → (map binding_of checks ≡ bs) × (reads ≡ read_each bs history)
  unfolding check_all
  check_all-ok [] db history checks reads h = (cc, cc)
  check_all-ok (b ∷ bs) db history checks reads h =
      go (check_one source b db history) (check_all source bs db (b.identity ∷ history))
        (λ found trace. check_all-ok bs db (b.identity ∷ history) found trace) h
    where
      go :
          (one : Result PassError Check)
          (rest : Result PassError (List (IdentityBinding × Check)) × List IdentityRef)
          → ((found : List (IdentityBinding × Check)) (trace : List IdentityRef)
              → rest ≡ (ok found, trace)
              → (map binding_of found ≡ bs) × (trace ≡ read_each bs (b.identity ∷ history)))
          → elim one [ ok check ↦ put source b check rest | err e ↦ (err e, b.identity ∷ history) ]
            ≡ (ok checks, reads)
          → (map binding_of checks ≡ b ∷ bs) × (reads ≡ read_each bs (b.identity ∷ history))
      go (err e) rest later out = absurd (cc (out))
      go (ok check) (err e, trace) later out = absurd (cc (out))
      go (ok check) (ok found, trace) later out =
          let (order, each) = later found trace refl in
          let named : (b, check) ∷ found ≡ checks = cc in
          let traced : trace ≡ reads = cc in
          (ap (map binding_of) (sym named) ∙ ap (◌∷◌ b) order, sym traced ∙ each)

  -- What is true of a pass that answers.
  abbrev Answered : List IdentityBinding → Db → Db → List IdentityRef → Type 0
  Answered bs db later history =
      (checks : List (IdentityBinding × Check)) × (reads : List IdentityRef) × (end : Db)
      × (check_all source bs db history ≡ (ok checks, reads))
      × (perform_all
            (writes_for source now (open_ids (list_orphans (some source.name) true db)) checks)
            later
          ≡ ok end)
      × (reconcile_bindings source now bs db later history ≡ (
        ok (
            report_for source now (length bs) (open_ids (list_orphans (some source.name) true db))
              checks),
        end,
        reads,
      ))

  abbrev Failed : List IdentityBinding → Db → Db → List IdentityRef → Type 0
  Failed bs db later history =
      (e : PassError) × (reads : List IdentityRef) × (reconcile_bindings source now bs db later
          history
        ≡ (err e, later, reads))

  pub reconcile_bindings-cases :
      (bs : List IdentityBinding) (db later : Db) (history : List IdentityRef)
      → Answered bs db later history ⊎ Failed bs db later history
  unfolding reconcile_bindings check_all writes_for perform_all report_for
  reconcile_bindings-cases [] db later history = inl ([], history, later, refl, refl, refl)
  reconcile_bindings-cases (b ∷ bs) db later history =
      go (first_foreign source now (b ∷ bs)) refl (check_all source (b ∷ bs) db history) refl
    where
      already_open : List ℕ
      already_open = open_ids (list_orphans (some source.name) true db)

      go :
          (foreign : Option IdentityRef)
          → first_foreign source now (b ∷ bs) ≡ foreign
          → (all : Result PassError (List (IdentityBinding × Check)) × List IdentityRef)
          → check_all source (b ∷ bs) db history ≡ all
          → Answered (b ∷ bs) db later history ⊎ Failed (b ∷ bs) db later history
      go (some identity) e all f = inr (wrong_endpoint identity, history, cc)
      go none e (err x, reads) f = inr (x, reads, ground (arith, e, f))
      go none e (ok checks, reads) f =
          elim (committed-cases source now
            (report_for source now (length (b ∷ bs)) already_open checks) reads
            (writes_for source now already_open checks) later) [
              | inl (end, done, answer) ↦
                  inl (checks, reads, end, f, done, ground (arith, e, f, answer))
              | inr (x, answer) ↦ inr (store_raised x, reads, ground (arith, e, f, answer))
            ]

  -- A pass over bindings with different rows that answers has read each of them once, in order, and
  -- the row of every key is as the check of its binding left it: where the object was missing, an
  -- open row that keeps the first miss of the row before; where it was there and an orphan of its
  -- neutral id was open at the start, the row resolved; and in every other case, an inconclusive
  -- check among them, the row that other tasks left. Of the other tables the pass changes nothing.
  pub reconcile_bindings-settles :
      (bs : List IdentityBinding) (db later : Db) (history : List IdentityRef)
      (report : ReconciliationReport) (end : Db) (reads : List IdentityRef)
      → DistinctBy (row_key source now) bs
      → reconcile_bindings source now bs db later history ≡ (ok report, end, reads)
      → (checks : List (IdentityBinding × Check)) × (check_all source bs db history
          ≡ (ok checks, reads))
        × (map binding_of checks ≡ bs)
        × (reads ≡ read_each bs history)
        × ((key : RowKey)
            → Dict.lookup key end.orphan_log
              ≡ settled_row source now
                  (open_ids (list_orphans (some source.name) true db))
                  (verdict source now key checks)
                  (Dict.lookup key later.orphan_log))
        × (end ≡ record later { orphan_log = end.orphan_log })
  reconcile_bindings-settles bs db later history report end reads distinct h =
      elim (reconcile_bindings-cases bs db later history) [
        | inl (checks, trace, stored, found, done, answer) ↦
            let open_at_start = open_ids (list_orphans (some source.name) true db) in
            let same_end : stored ≡ end = cc in
            let same_reads : trace ≡ reads = cc in
            let (order, each) = check_all-ok bs db history checks trace found in
            let apart =
              DistinctBy-map binding_of (row_key source now) checks
                (subst (DistinctBy (row_key source now)) (sym order) distinct) in
            let written =
              subst (λ d. perform_all (writes_for source now open_at_start checks) later ≡ ok d)
                same_end done in
            (
              checks,
              found ∙ ap (λ (r : List IdentityRef). (ok checks, r)) same_reads,
              order,
              sym same_reads ∙ each,
              λ key. writes_for-row source now open_at_start checks key later end apart written,
              writes_for-log source now open_at_start checks later end written,
            )
        | inr (e, trace, answer) ↦ absurd (cc (answer, h))
      ]

  -- A pass that raises, be it for a binding of another endpoint, a read that fails without being
  -- classified, or a refused write, leaves the store as other tasks left it.
  pub reconcile_bindings-raises :
      (bs : List IdentityBinding) (db later : Db) (history : List IdentityRef) (e : PassError)
      → (reconcile_bindings source now bs db later history).0 ≡ err e
      → (reconcile_bindings source now bs db later history).1 ≡ later
  reconcile_bindings-raises bs db later history e h =
      elim (reconcile_bindings-cases bs db later history) [
        | inl (checks, trace, stored, found, done, answer) ↦ absurd (cc (answer, h))
        | inr (x, trace, answer) ↦ ap (λ (o : Outcome source now). o.1) answer
      ]
