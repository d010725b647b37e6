-- ===== src/Orphans/Report.antt =====
-- The report of a pass, against what it is meant to list.
use qlabs_catalog_sync.Prelude.{
  ℕ, Bool, true, false, not, ◌&&◌, List, [], ◌∷◌, map, some, ok, contains, nat_eq, filter, length,
  ◌≡◌, refl, sym, ap, ◌∙◌, subst, inl, inr, arith,
}
use qlabs_catalog_sync.Models.{IdentityRef}
use qlabs_catalog_sync.State.Rows.{Db}
use qlabs_catalog_sync.State.Queries.{IdentityBinding, list_orphans}
use qlabs_catalog_sync.Orphans.Checks.{
  CheckStatus, present, missing, inconclusive, Check, Source, check_all,
}
use qlabs_catalog_sync.Orphans.Pass.{
  ReconciliationReport, orphan_report, inconclusive_check, open_ids, reconcile_bindings, report_for,
  note, empty_report,
}
use qlabs_catalog_sync.Orphans.Outcome.{reconcile_bindings-cases}

abbrev is_missing : CheckStatus → Bool
is_missing present = false
is_missing missing = true
is_missing inconclusive = false

abbrev is_present : CheckStatus → Bool
is_present present = true
is_present missing = false
is_present inconclusive = false

abbrev is_inconclusive : CheckStatus → Bool
is_inconclusive present = false
is_inconclusive missing = false
is_inconclusive inconclusive = true

-- The bindings that are open already, or not, and whose check has a status.
abbrev pub those :
    (CheckStatus → Bool)
    → (Bool → Bool)
    → List ℕ
    → List (IdentityBinding × Check)
    → List (IdentityBinding × Check)
those status known already_open =
    filter (λ (b, check). status check.status && known (contains already_open b.neutral_id))

abbrev either : Bool → Bool
either known = true

abbrev already : Bool → Bool
already known = known

module _ (source : Source) (now : ℕ) where
  -- What the report of some checks is meant to be.
  abbrev pub Lists : List ℕ → List (IdentityBinding × Check) → ReconciliationReport → Type 0
  Lists open_at_start checks r =
      (r.newly_missing
        ≡ map (λ (b, _). orphan_report source now b) (those is_missing not open_at_start checks))
      × (r.still_missing
          ≡ map (λ (b, _). orphan_report source now b)
              (those is_missing already open_at_start checks))
      × (r.resolved ≡ map (λ (b, _). b.neutral_id) (those is_present already open_at_start checks))
      × (r.inconclusive
          ≡ map (λ (b, check). inconclusive_check source now b check)
              (those is_inconclusive either open_at_start checks))

  note-Lists :
      (open_at_start : List ℕ) (known : Bool) (b : IdentityBinding) (check : Check)
      (status : CheckStatus) (checks : List (IdentityBinding × Check)) (r : ReconciliationReport)
      → contains open_at_start b.neutral_id ≡ known
      → check.status ≡ status
      → Lists open_at_start checks r
      → Lists open_at_start ((b, check) ∷ checks) (note source now known b check status r)
  unfolding note
  note-Lists open_at_start true b check missing checks r e f h = ground (arith, h, e, f)
  note-Lists open_at_start false b check missing checks r e f h = ground (arith, h, e, f)
  note-Lists open_at_start true b check present checks r e f h = ground (arith, h, e, f)
  note-Lists open_at_start false b check present checks r e f h = ground (arith, h, e, f)
  note-Lists open_at_start known b check inconclusive checks r e f h = ground (arith, h, e, f)

  report_for-Lists :
      (checked : ℕ) (open_at_start : List ℕ) (checks : List (IdentityBinding × Check))
      → Lists open_at_start checks (report_for source now checked open_at_start checks)
  unfolding report_for empty_report
  report_for-Lists checked open_at_start [] = (refl, refl, refl, refl)
  report_for-Lists checked open_at_start ((b, check) ∷ checks) =
      note-Lists open_at_start (contains open_at_start b.neutral_id) b check check.status checks _
        refl refl (report_for-Lists checked open_at_start checks)

  note-header :
      (known : Bool) (b : IdentityBinding) (check : Check) (status : CheckStatus)
      (r : ReconciliationReport)
      → ((note source now known b check status r).endpoint ≡ r.endpoint)
        × ((note source now known b check status r).checked_at ≡ r.checked_at)
        × ((note source now known b check status r).checked ≡ r.checked)
  unfolding note
  note-header true b check missing r = (refl, refl, refl)
  note-header false b check missing r = (refl, refl, refl)
  note-header true b check present r = (refl, refl, refl)
  note-header false b check present r = (refl, refl, refl)
  note-header known b check inconclusive r = (refl, refl, refl)

  report_for-header :
      (checked : ℕ) (open_at_start : List ℕ) (checks : List (IdentityBinding × Check))
      → ((report_for source now checked open_at_start checks).endpoint ≡ source.name)
        × ((report_for source now checked open_at_start checks).checked_at ≡ now)
        × ((report_for source now checked open_at_start checks).checked ≡ checked)
  unfolding report_for empty_report
  report_for-header checked open_at_start [] = (refl, refl, refl)
  report_for-header checked open_at_start ((b, check) ∷ checks) =
      let (where_from, at, count) = report_for-header checked open_at_start checks in
      let (same_where, same_at, same_count) =
        note-header (contains open_at_start b.neutral_id) b check check.status _ in
      (same_where ∙ where_from, same_at ∙ at, same_count ∙ count)

  -- The report of a pass that answers names the source, the time and the number of bindings. It
  -- lists, each in the order of the bindings: as newly missing those found missing whose neutral id
  -- had no open orphan at the start, as still missing those whose had one, as resolved those that
  -- are back and had one, and as inconclusive those whose check failed.
  pub reconcile_bindings-reports :
      (bs : List IdentityBinding) (db later : Db) (history : List IdentityRef)
      (report : ReconciliationReport)
      → (reconcile_bindings source now bs db later history).0 ≡ ok report
      → (checks : List (IdentityBinding × Check)) × ((check_all source bs db history).0 ≡ ok checks)
        × Lists (open_ids (list_orphans (some source.name) true db)) checks report
        × (report.endpoint ≡ source.name)
        × (report.checked_at ≡ now)
        × (report.checked ≡ length bs)
  reconcile_bindings-reports bs db later history report h =
      let open_at_start = open_ids (list_orphans (some source.name) true db) in
      elim (reconcile_bindings-cases source now bs db later history) [
        | inl (checks, reads, end, found, done, answer) ↦
            let same : report_for source now (length bs) open_at_start checks ≡ report = cc in
            let (where_from, at, count) = report_for-header (length bs) open_at_start checks in
            (
              checks,
              cc,
              subst (Lists open_at_start checks) same
                  (report_for-Lists (length bs) open_at_start checks),
              ap (λ r. r.endpoint) (sym same) ∙ where_from,
              ap (λ r. r.checked_at) (sym same) ∙ at,
              ap (λ r. r.checked) (sym same) ∙ count,
            )
        | inr (e, reads, answer) ↦ absurd (cc (answer, h))
      ]
