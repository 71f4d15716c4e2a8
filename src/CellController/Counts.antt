-- ===== src/CellController/Counts.antt =====
-- The count of the endpoints, which is an `int32`.
use cell_router_operator.Base.{
  ◌≡◌, ◌≢◌, ◌↔◌, ◌∙◌, ℕ, ◌+◌, ◌%◌, ◌^◌, ◌<◌, true, List, [], ◌∷◌, length, Bool-cases, inl, inr,
  arith, if◌then◌else◌,
}
use cell_router_operator.Client.{Endpoint, EndpointSlice}
use cell_router_operator.CellController.{
  is_ready_endpoint, count_endpoints, count_slices, is_positive_int32,
}

-- The addresses of the endpoints that are not known to be unready.
unfoldable pub ready_addresses : List Endpoint → ℕ
ready_addresses [] = 0
ready_addresses (e ∷ rest) =
    let later = ready_addresses rest in
    if is_ready_endpoint e then length e.addresses + later else later

unfoldable pub total_addresses : List EndpointSlice → ℕ
unfolding ready_addresses
total_addresses [] = 0
total_addresses (s ∷ rest) = ready_addresses s.endpoints + total_addresses rest

wrap_add : (c l t : ℕ) → ((c + l % 2 ^ 32) % 2 ^ 32 + t) % 2 ^ 32 ≡ (c + (l + t)) % 2 ^ 32
wrap_add c l t = omega arith

count_endpoints-mod :
    (c : ℕ) (es : List Endpoint) → count_endpoints c es % 2 ^ 32 ≡ (c + ready_addresses es) % 2 ^ 32
unfolding count_endpoints ready_addresses
count_endpoints-mod c [] = omega arith
count_endpoints-mod c (e ∷ rest) = elim (Bool-cases (is_ready_endpoint e)) [
  | inl ready ↦ rw ready (
      count_endpoints-mod ((c + length e.addresses % 2 ^ 32) % 2 ^ 32) rest
      ∙ wrap_add c (length e.addresses) (ready_addresses rest))
  | inr unready ↦ rw unready (count_endpoints-mod c rest)
]

count_endpoints_bound : (c : ℕ) (es : List Endpoint) → c < 2 ^ 32 → count_endpoints c es < 2 ^ 32
unfolding count_endpoints
count_endpoints_bound c [] small = small
count_endpoints_bound c (e ∷ rest) small = elim (Bool-cases (is_ready_endpoint e)) [
  | inl ready ↦
      let next = (c + length e.addresses % 2 ^ 32) % 2 ^ 32 in
      rw ready (count_endpoints_bound next rest (omega arith))
  | inr unready ↦ rw unready (count_endpoints_bound c rest small)
]

count_slices-mod :
    (c : ℕ) (slices : List EndpointSlice)
    → c < 2 ^ 32
    → count_slices c slices ≡ (c + total_addresses slices) % 2 ^ 32
unfolding count_slices total_addresses
count_slices-mod c [] small = omega arith
count_slices-mod c (s ∷ rest) small =
    let next = count_endpoints c s.endpoints in
    let below = count_endpoints_bound c s.endpoints small in
    let first = count_endpoints-mod c s.endpoints in omega (arith, count_slices-mod next rest below)

-- If the endpoints that are not known to be unready have fewer than 2^31 addresses together, the
-- int32 count is their number, and it is positive exactly if there is one.
pub count_slices-total_addresses :
    (slices : List EndpointSlice)
    → total_addresses slices < 2 ^ 31
    → (count_slices 0 slices ≡ total_addresses slices)
      × ((is_positive_int32 (count_slices 0 slices) ≡ true) ↔ (total_addresses slices ≢ 0))
count_slices-total_addresses slices small =
    let wrapped : count_slices 0 slices ≡ total_addresses slices % 2 ^ 32 =
      omega (arith, count_slices-mod 0 slices (omega arith)) in
    let exact : count_slices 0 slices ≡ total_addresses slices = omega arith in
    (exact, rw exact (λ h e. ground arith, λ h. ground arith))
