-- ===== src/Queue/Meters/Stored.antt =====
-- `_native_cost` of app/crawl/repository.py: which reports it accepts, and what it makes of them.
use crawltrove.Base.{
  Row, All, Bool-cases, ℕ, ◌≡◌, refl, ap, subst, String, Bool, true, false, some, List, [], ◌∷◌,
  ◌&&◌, not, str_eq, ◌==◌, Option-cases, inl, inr, pos, negsuc, eq_iff, arith,
}
use crawltrove.Queue.Rows.{Amount}
use crawltrove.Queue.Results.{
  Result, ok, err, raise_if, protocol_error, Yields, Yields-bind, Yields-after,
}
use crawltrove.Queue.Meters.{
  contains, Number, number, not_finite, boolean, other, Reported, NativeMeters, route_native_meters,
  subset, meters_of, value_of, normalized, amount_of, checked, native_cost, reported,
}

-- The meters of what was normalized are the meters that were reported.
abbrev pub SameMeters : List Reported → List Amount → Type 0
SameMeters values costs = meters_of (reported costs) ≡ meters_of values

normalized-SameMeters : (values : List Reported) → Yields (SameMeters values) (normalized values)
unfolding normalized meters_of reported
normalized-SameMeters [] = refl
normalized-SameMeters (r ∷ rs) = Yields-after (SameMeters (r ∷ rs)) (value_of r.value) _ λ v e.
    Yields-bind (SameMeters rs) (SameMeters (r ∷ rs)) (normalized rs) _ (normalized-SameMeters rs)
      (λ rest k. ap (λ ms. r.meter ∷ ms) k)

checked-SameMeters :
    (route : String) (entry : NativeMeters) (values : List Reported)
    → Yields (λ cost. SameMeters values cost.1) (checked route entry values)
unfolding checked
checked-SameMeters route entry values =
    Yields-after (λ cost. SameMeters values cost.1)
      (raise_if
        (not (subset (meters_of values) entry.expected && subset entry.expected (meters_of values)))
        protocol_error)
      _
      λ u a.
        Yields-bind (SameMeters values) (λ cost. SameMeters values cost.1) (normalized values) _
          (normalized-SameMeters values)
          λ costs same.
            Yields-after (λ cost. SameMeters values cost.1)
              (raise_if
                (str_eq route "browserbase_session" && not (amount_of "proxyBytes" costs == 0))
                protocol_error)
              _ λ v b. same

-- An accepted cost has the meters that were reported, in their order.
pub native_cost-SameMeters :
    (route : String) (values : List Reported)
    → Yields (λ cost. SameMeters values cost.1) (native_cost route values)
unfolding native_cost
native_cost-SameMeters route values = elim (Option-cases (route_native_meters route)) [
  | inl e ↦ rw (e, native_cost) tt
  | inr (entry, e) ↦ rw (e, native_cost) (checked-SameMeters route entry values)
]

value_of-number : (x : Number) (n : ℕ) → value_of x ≡ ok n → x ≡ number (pos n)
unfolding value_of
value_of-number (number (pos n)) m h = ap (λ r. number (pos (amount r))) h
  where
    amount : Result ℕ → ℕ
    amount (ok k) = k
    amount (err e) = 0
value_of-number (number (negsuc n)) m h = cc
value_of-number not_finite m h = cc
value_of-number (boolean b) m h = cc
value_of-number other m h = cc

abbrev IsExact : List Reported → List Amount → Type 0
IsExact values costs = values ≡ reported costs

normalized-IsExact : (values : List Reported) → Yields (IsExact values) (normalized values)
unfolding normalized reported
normalized-IsExact [] = refl
normalized-IsExact (r ∷ rs) = Yields-after (IsExact (r ∷ rs)) (value_of r.value) _ λ v e.
    Yields-bind (IsExact rs) (IsExact (r ∷ rs)) (normalized rs) _ (normalized-IsExact rs)
      (λ rest k i. record { meter = r.meter; value = value_of-number r.value v e i } ∷ k i)

-- The costs of a route: its provider, its meters, and no proxy bytes of a browser session.
pub record IsPriced (route : String) (values : List Reported) (cost : String × List Amount)
    : Type 0 where
  entry : NativeMeters
  known : route_native_meters route ≡ some entry
  provider : cost.0 ≡ entry.provider
  exact : values ≡ reported cost.1
  no_others : All (λ m. Row m entry.expected) (meters_of values)
  complete : All (λ m. Row m (meters_of values)) entry.expected
  no_proxy_bytes : route ≡ "browserbase_session" → amount_of "proxyBytes" cost.1 ≡ 0

raise_if-false : (b : Bool) (u : Unit) → raise_if b protocol_error ≡ ok u → b ≡ false
raise_if-false false u h = refl
raise_if-false true u h = cc

contains-Row : (m : String) (ms : List String) → contains m ms ≡ true → Row m ms
unfolding contains
contains-Row m [] h = cc
contains-Row m (x ∷ xs) h = elim (Bool-cases (str_eq x m)) [
  | inl e ↦ inl ((eq_iff x m).0 e)
  | inr e ↦ inr (contains-Row m xs (ground (arith, e, h)))
]

subset-Row : (xs ys : List String) → subset xs ys ≡ true → All (λ m. Row m ys) xs
unfolding subset
subset-Row [] ys h = tt
subset-Row (x ∷ xs) ys h =
    (contains-Row x ys (ground (arith, h)), subset-Row xs ys (ground (arith, h)))

checked-IsPriced :
    (route : String) (entry : NativeMeters) (values : List Reported)
    → route_native_meters route ≡ some entry
    → Yields (IsPriced route values) (checked route entry values)
unfolding checked
checked-IsPriced route entry values found =
    let expected =
      not (subset (meters_of values) entry.expected && subset entry.expected (meters_of values)) in
    Yields-after (IsPriced route values) (raise_if expected protocol_error) _ λ u a.
      Yields-bind (IsExact values) (IsPriced route values) (normalized values) _
        (normalized-IsExact values)
        λ costs exact.
          Yields-after (IsPriced route values)
            (raise_if
              (str_eq route "browserbase_session" && not (amount_of "proxyBytes" costs == 0))
              protocol_error)
            _
            λ v b. record {
              entry = entry;
              known = found;
              provider = refl;
              exact = exact;
              no_others =
                  subset-Row (meters_of values) entry.expected
                    (ground (arith, raise_if-false expected u a));
              complete =
                  subset-Row entry.expected (meters_of values)
                    (ground (arith, raise_if-false expected u a));
              no_proxy_bytes = λ e.
                  ground (arith, raise_if-false _ v b, (eq_iff route "browserbase_session").1 e);
            }

native_cost-Yields :
    (route : String) (values : List Reported)
    → Yields (IsPriced route values) (native_cost route values)
unfolding native_cost
native_cost-Yields route values = elim (Option-cases (route_native_meters route)) [
  | inl e ↦ rw (e, native_cost) tt
  | inr (entry, e) ↦ rw (e, native_cost) (checked-IsPriced route entry values e)
]

-- A cost that native_cost accepts is exact: the route is known and the provider is its provider, the
-- meters are those of the route and no others, every reported value is a number that is not negative
-- and is the amount of the cost, and a browser session has no proxy bytes.
pub native_cost-IsPriced :
    (route : String) (values : List Reported) (cost : String × List Amount)
    → native_cost route values ≡ ok cost
    → IsPriced route values cost
native_cost-IsPriced route values cost h =
    subst (Yields (IsPriced route values)) h (native_cost-Yields route values)
