-- ===== src/Tests/Changes.antt =====
-- Three positions of one stream.
use qlabs_catalog_sync.Prelude.{◌≡◌, refl, true, false, some, ok, string_eq, nat_eq}
use qlabs_catalog_sync.Models.{data_product, entity_type_eq, EntityType-discrete}
use qlabs_catalog_sync.Changes.{Watermark, timestamp, initial_watermark, same_stream_as, kind_eq}
use qlabs_catalog_sync.Changes.Valid.{is_after}
use qlabs_catalog_sync.Changes.Order.{is_after-chain}

abbrev start : Watermark
start = initial_watermark "uc" data_product

abbrev first : Watermark
first = record start { kind = timestamp; timestamp = some 10 }

abbrev second : Watermark
second = record start { kind = timestamp; timestamp = some 20 }

ascending : (is_after second first ≡ ok true) × (is_after first start ≡ ok true)
unfolding is_after same_stream_as string_eq entity_type_eq EntityType-discrete kind_eq
ascending = (refl, refl)

is_after-chain_example :
    ((same_stream_as second first ≡ true)
      × (same_stream_as first start ≡ true)
      × (same_stream_as second start ≡ true))
    × (is_after second start ≡ ok true)
    × (is_after start second ≡ ok false)
    × (is_after second second ≡ ok false)
    × (is_after first first ≡ ok false)
    × (is_after start start ≡ ok false)
is_after-chain_example = is_after-chain second first start ascending.0 ascending.1
