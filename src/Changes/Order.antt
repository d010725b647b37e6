-- ===== src/Changes/Order.antt =====
-- The order of the watermarks of one stream.
use qlabs_catalog_sync.Prelude.{
  ℕ, true, false, Option, none, some, ok, string_eq, ◌||◌, ◌≡◌, refl, ◌∙◌, arith,
}
use qlabs_catalog_sync.Models.{entity_type_eq}
use qlabs_catalog_sync.Changes.{kind_eq, Watermark, same_stream_as}
use qlabs_catalog_sync.Changes.Valid.{is_initial, later, is_after}

later-chain : (a b c : Option ℕ) → later a b ≡ true → later b c ≡ true → later a c ≡ true
later-chain (some x) (some y) (some z) h k = ground (arith, h, k)
later-chain (some x) (some y) none h k = absurd (cc (k))
later-chain (some x) none c h k = absurd (cc (h))
later-chain none b c h k = absurd (cc (h))

later-asym : (a b : Option ℕ) → later a b ≡ true → later b a ≡ false
later-asym (some x) (some y) h = ground (arith, h)
later-asym (some x) none h = refl
later-asym none b h = absurd (cc (h))

later_irrefl : (a : Option ℕ) → later a a ≡ false
later_irrefl (some x) = ground arith
later_irrefl none = refl

-- What it takes for a watermark to be after another.
record Ahead (w other : Watermark) : Type 0 where
  same_endpoint : w.endpoint ≡ other.endpoint
  same_type : w.entity_type ≡ other.entity_type
  begun : is_initial w ≡ false
  ordered : (is_initial other || later w.timestamp other.timestamp) ≡ true

is_after-Ahead : (w other : Watermark) → is_after w other ≡ ok true → Ahead w other
unfolding is_after same_stream_as
is_after-Ahead w other h = record {
  same_endpoint = ground (arith, h);
  same_type = ground (arith, h);
  begun = ground (arith, h);
  ordered = ground (arith, h);
}

Ahead-is_after : (w other : Watermark) → Ahead w other → is_after w other ≡ ok true
unfolding is_after same_stream_as
Ahead-is_after w other h = ground (arith, h.same_endpoint, h.same_type, h.begun, h.ordered)

Ahead-trans : (a b c : Watermark) → Ahead a b → Ahead b c → Ahead a c
Ahead-trans a b c h k = record {
  same_endpoint = h.same_endpoint ∙ k.same_endpoint;
  same_type = h.same_type ∙ k.same_type;
  begun = h.begun;
  ordered =
      ground
        (arith, k.begun, h.ordered, k.ordered, later-chain a.timestamp b.timestamp c.timestamp);
}

Ahead-back : (w other : Watermark) → Ahead w other → is_after other w ≡ ok false
unfolding is_after same_stream_as
Ahead-back w other h = ground (
  arith,
  h.same_endpoint,
  h.same_type,
  h.begun,
  h.ordered,
  later-asym w.timestamp other.timestamp,
)

is_after_self : (w : Watermark) → is_after w w ≡ ok false
unfolding is_after same_stream_as
is_after_self w = ground (arith, later_irrefl w.timestamp)

Ahead-stream : (w other : Watermark) → Ahead w other → same_stream_as w other ≡ true
unfolding same_stream_as
Ahead-stream w other h = ground (arith, h.same_endpoint, h.same_type)

-- Where one watermark is after a second, and that one after a third, the three are of one stream,
-- the first is after the third, the third is not after the first, and none of the three is after
-- itself.
pub is_after-chain :
    (a b c : Watermark)
    → is_after a b ≡ ok true
    → is_after b c ≡ ok true
    → ((same_stream_as a b ≡ true) × (same_stream_as b c ≡ true) × (same_stream_as a c ≡ true))
      × (is_after a c ≡ ok true)
      × (is_after c a ≡ ok false)
      × (is_after a a ≡ ok false)
      × (is_after b b ≡ ok false)
      × (is_after c c ≡ ok false)
is_after-chain a b c h k =
    let first = is_after-Ahead a b h in
    let second = is_after-Ahead b c k in
    let ahead = Ahead-trans a b c first second in
    (
      (Ahead-stream a b first, Ahead-stream b c second, Ahead-stream a c ahead),
      Ahead-is_after a c ahead,
      Ahead-back a c ahead,
      is_after_self a,
      is_after_self b,
      is_after_self c,
    )
