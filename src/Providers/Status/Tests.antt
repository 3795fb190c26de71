-- ===== src/Providers/Status/Tests.antt =====
-- Test runs of src/modules/providers/statusMapper.js, and its properties at concrete texts.
use kanz_coins_backend.Prelude.{◌≡◌, refl, some, none}
use kanz_coins_backend.Prelude.Text.{codes, includes, get}
use kanz_coins_backend.Db.{OrderStatus}
use kanz_coins_backend.Providers.Status.{
  status, inherited, to_internal_status, map_key, status_map, requires_refund, inherited_keys,
}
use kanz_coins_backend.Providers.Status.Refunds.{requires_refund-eq, refunds_mapped}

maps_case_and_blanks :
    to_internal_status (some (codes " In Progress ")) ≡ status OrderStatus.processing
unfolding to_internal_status map_key status_map get
maps_case_and_blanks = refl

maps_cancelled : to_internal_status (some (codes "Cancelled")) ≡ status OrderStatus.canceled
unfolding to_internal_status map_key status_map get
maps_cancelled = refl

maps_unknown : to_internal_status (some (codes "whatever")) ≡ status OrderStatus.processing
unfolding to_internal_status map_key status_map get inherited_keys includes
maps_unknown = refl

maps_missing : to_internal_status none ≡ status OrderStatus.processing
unfolding to_internal_status map_key status_map get inherited_keys includes
maps_missing = refl

-- A member of `Object.prototype`, which is no status.
maps_inherited : to_internal_status (some (codes "constructor")) ≡ inherited
unfolding to_internal_status map_key status_map get inherited_keys includes
maps_inherited = refl

requires_refund-eq_example :
    requires_refund (some (codes "Partial"))
    ≡ refunds_mapped (to_internal_status (some (codes "Partial")))
requires_refund-eq_example = requires_refund-eq (some (codes "Partial"))
