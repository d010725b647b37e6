-- ===== src/Orphans/Digest.antt =====
-- sync/orphans.py: the policy, and the digest of open orphans for an operator.
use qlabs_catalog_sync.Prelude.{
  ℕ, ◌-◌, Bool, true, false, ◌&&◌, List, [], ◌∷◌, ◌++◌, String, Option, none, some, leb, length,
  filter, is_none, if◌then◌else◌, string_eq,
}
use qlabs_catalog_sync.Prelude.Dict
use qlabs_catalog_sync.Prelude.Dict.{Dict}
use qlabs_catalog_sync.Prelude.Sort.{sort}
use qlabs_catalog_sync.Prelude.Text.{str_lt}
use qlabs_catalog_sync.Models.{EntityType}
use qlabs_catalog_sync.State.Rows.{RowKey, OrphanLogRow}

pub data OrphanConfidence : Type 0 where
  tentative confirmed : OrphanConfidence

pub record OrphanPolicy : Type 0 where
  pub require_reconfirmation : Bool

unfoldable pub confidence : OrphanPolicy → OrphanLogRow → OrphanConfidence
confidence policy row =
    if policy.require_reconfirmation && leb row.last_missing_at row.first_missing_at
    then tentative
    else confirmed

-- The text for a confirmed orphan quotes its key and dates, and is a parameter.
unfoldable pub recommended_action :
    (RowKey → OrphanLogRow → String) → RowKey → OrphanLogRow → OrphanConfidence → String
recommended_action text key row tentative =
    "Seen missing once so far; will be rechecked before this counts as a confirmed deletion. No action needed yet."
recommended_action text key row confirmed = text key row

-- A `timedelta`, in the unit of the instants.
pub data Timedelta : Type 0 where
  after before : ℕ → Timedelta

unfoldable pub elapsed : ℕ → ℕ → Timedelta
elapsed now since = if leb since now then after (now - since) else before (since - now)

pub record OrphanAdvisory : Type 0 where
  pub neutral_id : ℕ
  pub endpoint : String
  pub entity_type : EntityType
  pub native_key : Option String
  pub confidence : OrphanConfidence
  pub first_missing_at : ℕ
  pub last_missing_at : ℕ
  pub last_seen_at : Option ℕ
  pub missing_for : Timedelta
  pub checked_ago : Timedelta
  pub recommended_action : String

pub record OrphanDigest : Type 0 where
  pub generated_at : ℕ
  pub advisories : List OrphanAdvisory

abbrev pub is_confirmed : OrphanConfidence → Bool
is_confirmed tentative = false
is_confirmed confirmed = true

abbrev pub is_tentative : OrphanConfidence → Bool
is_tentative tentative = true
is_tentative confirmed = false

unfoldable pub confirmed_of : OrphanDigest → List OrphanAdvisory
confirmed_of d = filter (λ a. is_confirmed a.confidence) d.advisories

unfoldable pub tentative_of : OrphanDigest → List OrphanAdvisory
tentative_of d = filter (λ a. is_tentative a.confidence) d.advisories

abbrev pub get_or_nil : Option (List OrphanAdvisory) → List OrphanAdvisory
get_or_nil none = []
get_or_nil (some items) = items

-- `grouped.setdefault(endpoint, []).append(advisory)`
unfoldable pub group :
    List OrphanAdvisory → Dict String (List OrphanAdvisory) → Dict String (List OrphanAdvisory)
group [] grouped = grouped
group (a ∷ rest) grouped =
    group rest
      (Dict.insert a.endpoint (get_or_nil (Dict.lookup a.endpoint grouped) ++ (a ∷ [])) grouped)

unfoldable pub by_endpoint : OrphanDigest → Dict String (List OrphanAdvisory)
by_endpoint d = group d.advisories []

-- What the headline's one line names, where there is any orphan.
pub record Headline : Type 0 where
  pub outstanding : ℕ
  pub endpoints : List String
  pub confirmed : ℕ
  pub tentative : ℕ

unfoldable pub headline : OrphanDigest → Option Headline
headline d = elim d.advisories [
  | [] ↦ none
  | _ ∷ _ ↦ some (record {
    outstanding = length d.advisories;
    endpoints = sort str_lt (Dict.keys (by_endpoint d));
    confirmed = length (confirmed_of d);
    tentative = length (tentative_of d);
  })
]

module _ (text : RowKey → OrphanLogRow → String) (policy : OrphanPolicy) (now : ℕ) where
  unfoldable pub advise : RowKey → OrphanLogRow → OrphanAdvisory
  advise key row = record {
    neutral_id = key.neutral_id;
    endpoint = key.endpoint;
    entity_type = key.entity_type;
    native_key = row.native_key;
    confidence = confidence policy row;
    first_missing_at = row.first_missing_at;
    last_missing_at = row.last_missing_at;
    last_seen_at = row.last_seen_at;
    missing_for = elapsed now row.first_missing_at;
    checked_ago = elapsed now row.last_missing_at;
    recommended_action = recommended_action text key row (confidence policy row);
  }

  unfoldable pub advise_all : Dict RowKey OrphanLogRow → List OrphanAdvisory
  advise_all [] = []
  advise_all ((key, row) ∷ rows) =
      let rest = advise_all rows in if is_none row.resolved_at then advise key row ∷ rest else rest

  unfoldable pub summarize_orphans : Dict RowKey OrphanLogRow → OrphanDigest
  summarize_orphans records = record { generated_at = now; advisories = advise_all records }
