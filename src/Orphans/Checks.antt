-- ===== src/Orphans/Checks.antt =====
-- sync/orphans.py: one direct read of each binding at the source.
use qlabs_catalog_sync.Prelude.{
  ℕ, List, [], ◌∷◌, String, Option, none, some, Result, ok, err, if◌then◌else◌, leb,
}
use qlabs_catalog_sync.Models.{IdentityRef, Envelopes}
use qlabs_catalog_sync.Changes.{NeutralEntity, ConnectorError, not_found}
use qlabs_catalog_sync.State.Rows.{Db}
use qlabs_catalog_sync.State.UnitOfWork.{StoreError}
use qlabs_catalog_sync.State.Queries.{IdentityBinding, fetch_envelopes}

pub data CheckStatus : Type 0 where
  present missing inconclusive : CheckStatus

pub record Check : Type 0 where
  pub status : CheckStatus
  pub detail : Option String
  pub last_synced_at : Option ℕ

-- What a read may raise: a `ConnectorError`, or an exception that is none.
pub data ReadError : Type 0 where
  classified : ConnectorError → ReadError
  unclassified : ReadError

-- The source answers by the reads before, the latest first; `describe` is the text of an error.
pub record Source : Type 0 where
  pub name : String
  pub on_read : List IdentityRef → IdentityRef → Result ReadError NeutralEntity
  pub describe : ConnectorError → String

-- What a pass may raise.
pub data PassError : Type 0 where
  wrong_endpoint : IdentityRef → PassError
  read_raised : PassError
  store_raised : StoreError → PassError

abbrev pub latest : Option ℕ → Option ℕ → Option ℕ
latest none b = b
latest (some a) none = some a
latest (some a) (some b) = some (if leb a b then b else a)

abbrev pub newest : Envelopes → Option ℕ
newest [] = none
newest ((_, e) ∷ es) = latest e.last_synced_at (newest es)

unfoldable pub last_synced_at : ℕ → String → Db → Option ℕ
last_synced_at neutral_id endpoint db = newest (fetch_envelopes neutral_id endpoint db)

module _ (source : Source) where
  abbrev pub judged : IdentityBinding → Db → Result ReadError NeutralEntity → Result PassError Check
  judged b db (ok _) = ok (record { status = present; detail = none; last_synced_at = none })
  judged b db (err (classified not_found)) = ok (record {
    status = missing;
    detail = none;
    last_synced_at = last_synced_at b.neutral_id source.name db;
  })
  judged b db (err (classified e)) =
      ok
        (record { status = inconclusive; detail = some (source.describe e); last_synced_at = none })
  judged b db (err unclassified) = err read_raised

  -- `_check_one`, after the reads `history`.
  unfoldable pub check_one : IdentityBinding → Db → List IdentityRef → Result PassError Check
  check_one b db history = judged b db (source.on_read history b.identity)

  abbrev pub Checked : Type 0
  Checked = List (IdentityBinding × Check)

  abbrev pub put :
      IdentityBinding
      → Check
      → Result PassError Checked × List IdentityRef
      → Result PassError Checked × List IdentityRef
  put b check (ok checks, reads) = (ok ((b, check) ∷ checks), reads)
  put b check (err e, reads) = (err e, reads)

  -- The first check that raises ends the pass.
  unfoldable pub check_all :
      List IdentityBinding → Db → List IdentityRef → Result PassError Checked × List IdentityRef
  check_all [] db history = (ok [], history)
  check_all (b ∷ bs) db history =
      let rest = check_all bs db (b.identity ∷ history) in
      elim (check_one b db history) [
        | ok check ↦ put b check rest
        | err e ↦ (err e, b.identity ∷ history)
      ]
