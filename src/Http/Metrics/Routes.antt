-- ===== src/Http/Metrics/Routes.antt =====
-- internal/interface/http/metrics.go, routeLabel and Metrics.Middleware, over the routes of handler.go.
use inventory_reservation_sy.Base.{
  ℕ, ◌≡◌, refl, if◌then◌else◌, Bool, true, false, ◌&&◌, List, ◌∷◌, ◌++◌, arith,
}
use inventory_reservation_sy.Base.Text.{Text, codes, text_eq}
use inventory_reservation_sy.Base.Strings.{
  has_prefix, has_suffix, has_suffix-append, last_of-append, suffix_last,
}
use inventory_reservation_sy.Base.Time.{Duration}
use inventory_reservation_sy.Http.Handler.{
  Request, post_reservation, post_confirm, post_cancel, get_reservation_by, get_stock,
}
use inventory_reservation_sy.Http.Metrics.{Float64, Metrics, recorded_status, record_request}

unfoldable pub route_label : Text → Text → Text
unfolding has_prefix has_suffix text_eq
route_label method path =
    if text_eq method (codes "POST") && text_eq path (codes "/reservations")
    then codes "/reservations"
    else if text_eq method (codes "POST")
        && (has_prefix path (codes "/reservations/") && has_suffix path (codes "/confirm"))
    then codes "/reservations/{id}/confirm"
    else if text_eq method (codes "POST")
        && (has_prefix path (codes "/reservations/") && has_suffix path (codes "/cancel"))
    then codes "/reservations/{id}/cancel"
    else if text_eq method (codes "GET") && has_prefix path (codes "/reservations/")
    then codes "/reservations/{id}"
    else if text_eq method (codes "GET")
        && (has_prefix path (codes "/products/") && has_suffix path (codes "/stock"))
    then codes "/products/{id}/stock"
    else codes "unknown"

-- Metrics.Middleware, after the handler has written the statuses given and has taken some time.
unfoldable pub observe :
    {F : Type 0} → Float64 F → Text → Text → List ℕ → Duration → Metrics F → Metrics F
unfolding recorded_status record_request
observe float method path written duration m =
    record_request float
      (record {
        method = method;
        route = route_label method path;
        status = recorded_status 200 written;
        duration = duration;
      })
      m

-- A request that a route of Handler.Routes takes: one that the service answers, HEAD in place of a
-- GET, as `ServeMux` has it, and the API description.
pub data Routed : Type 0 where
  to_service : Request → Routed
  head_reservation head_stock : Text → Routed
  get_openapi head_openapi : Routed

-- What a client sends to have its request matched with that route.
abbrev pub method_of : Routed → Text
method_of (to_service (post_reservation body)) = codes "POST"
method_of (to_service (post_confirm id)) = codes "POST"
method_of (to_service (post_cancel id)) = codes "POST"
method_of (to_service (get_reservation_by id)) = codes "GET"
method_of (to_service (get_stock id)) = codes "GET"
method_of (head_reservation id) = codes "HEAD"
method_of (head_stock id) = codes "HEAD"
method_of get_openapi = codes "GET"
method_of head_openapi = codes "HEAD"

abbrev pub path_of : Routed → Text
path_of (to_service (post_reservation body)) = codes "/reservations"
path_of (to_service (post_confirm id)) = codes "/reservations/" ++ id ++ codes "/confirm"
path_of (to_service (post_cancel id)) = codes "/reservations/" ++ id ++ codes "/cancel"
path_of (to_service (get_reservation_by id)) = codes "/reservations/" ++ id
path_of (to_service (get_stock id)) = codes "/products/" ++ id ++ codes "/stock"
path_of (head_reservation id) = codes "/reservations/" ++ id
path_of (head_stock id) = codes "/products/" ++ id ++ codes "/stock"
path_of get_openapi = codes "/openapi.yaml"
path_of head_openapi = codes "/openapi.yaml"

-- The pattern of that route.
abbrev pub pattern_of : Routed → Text
pattern_of (to_service (post_reservation body)) = codes "/reservations"
pattern_of (to_service (post_confirm id)) = codes "/reservations/{id}/confirm"
pattern_of (to_service (post_cancel id)) = codes "/reservations/{id}/cancel"
pattern_of (to_service (get_reservation_by id)) = codes "/reservations/{id}"
pattern_of (to_service (get_stock id)) = codes "/products/{id}/stock"
pattern_of (head_reservation id) = codes "/reservations/{id}"
pattern_of (head_stock id) = codes "/products/{id}/stock"
pattern_of get_openapi = codes "/openapi.yaml"
pattern_of head_openapi = codes "/openapi.yaml"

-- Whether the service answers the request, under the method of its pattern.
abbrev pub is_service_call : Routed → Bool
is_service_call (to_service q) = true
is_service_call _ = false

cancel_not_confirm : (id : Text) → has_suffix (id ++ codes "/cancel") (codes "/confirm") ≡ false
cancel_not_confirm id = ground (
  arith,
  suffix_last (id ++ codes "/cancel") 0 47 (codes "confirm"),
  last_of-append 0 47 id (codes "cancel"),
)

-- A request that a route takes is counted under the pattern of that route, whatever its id is, if the
-- service answers it under the method of the pattern. If it is a HEAD request, or one for the API
-- description, it is counted as unknown.
pub route_label-pattern :
    (r : Routed)
    → route_label (method_of r) (path_of r)
      ≡ (if is_service_call r then pattern_of r else codes "unknown")
unfolding route_label has_prefix text_eq
route_label-pattern (to_service (post_reservation body)) = refl
route_label-pattern (to_service (post_confirm id)) =
    ground (arith, has_suffix-append id (codes "/confirm"))
route_label-pattern (to_service (post_cancel id)) =
    ground (arith, cancel_not_confirm (47 ∷ id), has_suffix-append id (codes "/cancel"))
route_label-pattern (to_service (get_reservation_by id)) = refl
route_label-pattern (to_service (get_stock id)) =
    ground (arith, has_suffix-append id (codes "/stock"))
route_label-pattern (head_reservation id) = refl
route_label-pattern (head_stock id) = refl
route_label-pattern get_openapi = refl
route_label-pattern head_openapi = refl
