-- ===== src/Changes/Valid.antt =====
-- The SDK's contract.py: what the models accept, and the order of watermarks.
use qlabs_catalog_sync.Prelude.{
  ℕ, Bool, true, false, not, ◌||◌, List, [], ◌∷◌, String, Option, none, some, Result, ok, err,
  is_none, ltb, if◌then◌else◌, ◌==◌, string_eq,
}
use qlabs_catalog_sync.Prelude.Text.{is_empty}
use qlabs_catalog_sync.Models.{entity_type_eq}
use qlabs_catalog_sync.Changes.{
  WriteResult, no_op, created, updated, WatermarkKind, initial, timestamp, cursor, kind_eq,
  Watermark, same_stream_as, ChangeRef, ListChangedResult,
}

-- The values that `_payload_matches_kind` and the field's `min_length` refuse, in order.
pub data WatermarkError : Type 0 where
  endpoint_empty timestamp_missing cursor_missing initial_has_payload : WatermarkError
  timestamp_has_cursor cursor_has_timestamp : WatermarkError

-- `not self.cursor`
abbrev pub no_cursor : Option String → Bool
no_cursor none = true
no_cursor (some token) = is_empty token

abbrev pub payload_error : WatermarkKind → Option ℕ → Option String → Option WatermarkError
payload_error timestamp none token = some timestamp_missing
payload_error timestamp (some at) token =
    if no_cursor token then none else some timestamp_has_cursor
payload_error cursor at token =
    if no_cursor token
    then some cursor_missing
    else if is_none at
    then none
    else some cursor_has_timestamp
payload_error initial (some at) token = some initial_has_payload
payload_error initial none token = if no_cursor token then none else some initial_has_payload

unfoldable pub check_watermark : Watermark → Option WatermarkError
check_watermark w =
    if is_empty w.endpoint then some endpoint_empty else payload_error w.kind w.timestamp w.cursor

abbrev pub is_initial : Watermark → Bool
is_initial w = w.kind == initial

pub data OrderError : Type 0 where
  different_streams : OrderError

-- `self.timestamp > other.timestamp`, where both are given.
abbrev pub later : Option ℕ → Option ℕ → Bool
later (some mine) (some its) = ltb its mine
later (some mine) none = false
later none its = false

unfoldable pub is_after : Watermark → Watermark → Result OrderError Bool
is_after w other =
    if not (same_stream_as w other)
    then err different_streams
    else if is_initial w
    then ok false
    else if is_initial other
    then ok true
    else ok (later w.timestamp other.timestamp)

-- `_changes_belong_to_the_watermark_stream`: the first change that does not.
unfoldable pub foreign_change : Watermark → List ChangeRef → Option ChangeRef
foreign_change mark [] = none
foreign_change mark (c ∷ cs) =
    let rest = foreign_change mark cs in
    if not (c.ref.endpoint == mark.endpoint) || not (c.ref.entity_type == mark.entity_type)
    then some c
    else rest

unfoldable pub check_listing : ListChangedResult → Option ChangeRef
check_listing r = foreign_change r.next_watermark r.changes

-- `_no_op_writes_nothing`
unfoldable pub check_write_result : WriteResult → Bool
check_write_result r = elim r.outcome [
  | no_op ↦ elim r.written_fields [ [] ↦ true | _ ∷ _ ↦ false ]
  | created ↦ true
  | updated ↦ true
]
