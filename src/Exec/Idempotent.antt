-- ===== src/Exec/Idempotent.antt =====
-- An order is placed once for each client order id: while the executor lives, and after a restart
-- that finds the id in the store.
use hyper_basis.Prelude.{
  ◌≡◌, refl, subst, ◌≢◌, inl, inr, String, Option, none, some, List, [], ◌∷◌, arith, str_eq, eq_iff,
  Bool-cases,
}
use hyper_basis.Prelude.Result.{Result, ok, err}
use hyper_basis.Prelude.Dict.{lookup, insert, lookup-insert}
use hyper_basis.Exec.{
  Order, RestClient, Store, Timer, Executor, cache_key, place_order, place_with_retry, remember,
  from_store, ask_store, from_cache,
}

abbrev pub key_of : {F : Type 0} → Order F → String
key_of order = cache_key order.client_order_id

module _ {F E : Type 0} (rest : RestClient F E) (store : Option (Store E)) (timer : Timer E) where
  remember-keeps :
      (key k v : String) (cache : List (String × String)) (r : Result String × E)
      → key ≢ k
      → lookup k cache ≡ some v
      → lookup k (remember rest store timer key cache r).1.cache ≡ some v
  remember-keeps key k v cache (ok id, e) ne h = rw lookup-insert (ground (arith, eq_iff key k))
  remember-keeps key k v cache (err x, e) ne h = h

  from_store-keeps :
      (order : Order F) (key k v : String) (cache : List (String × String))
      (r : Result (Option String) × E)
      → key ≢ k
      → lookup k cache ≡ some v
      → lookup k (from_store rest store timer order key cache r).1.cache ≡ some v
  from_store-keeps order key k v cache (err x, e) ne h = h
  from_store-keeps order key k v cache (ok (some id), e) ne h =
      rw lookup-insert (ground (arith, eq_iff key k))
  from_store-keeps order key k v cache (ok none, e) ne h =
      remember-keeps key k v cache (place_with_retry rest store timer order e) ne h

  from_cache-keeps :
      (order : Order F) (key k v : String) (x : Executor E) (o : Option String)
      → lookup key x.cache ≡ o
      → lookup k x.cache ≡ some v
      → lookup k (from_cache rest store timer order key x o).1.cache ≡ some v
  from_cache-keeps order key k v x (some id) e h = h
  from_cache-keeps order key k v x none e h =
      from_store-keeps order key k v x.cache (ask_store rest store timer store key x.env)
        (λ same. cc (rw same at e)) h

  -- What is cached stays cached, under the same id.
  place_order-keeps :
      (order : Order F) (k v : String) (x : Executor E)
      → lookup k x.cache ≡ some v
      → lookup k (place_order rest store timer order x).1.cache ≡ some v
  unfolding place_order
  place_order-keeps order k v x h = elim (Bool-cases (str_eq order.client_order_id "")) [
    | inl e ↦ rw e h
    | inr e ↦
        rw e (from_cache-keeps order (key_of order) k v x (lookup (key_of order) x.cache) refl h)
  ]

  from_store-caches :
      (order : Order F) (key v : String) (cache : List (String × String))
      (r : Result (Option String) × E)
      → (from_store rest store timer order key cache r).0 ≡ ok v
      → lookup key (from_store rest store timer order key cache r).1.cache ≡ some v
  from_store-caches order key v cache (err x, e) h = cc
  from_store-caches order key v cache (ok (some id), e) h =
      rw lookup-insert (ground (arith, eq_iff key key))
  from_store-caches order key v cache (ok none, e) h =
      remembers (place_with_retry rest store timer order e) h
    where
      remembers :
          (r : Result String × E)
          → (remember rest store timer key cache r).0 ≡ ok v
          → lookup key (remember rest store timer key cache r).1.cache ≡ some v
      remembers (ok id, e) h = rw lookup-insert (ground (arith, eq_iff key key))
      remembers (err x, e) h = cc

  from_cache-caches :
      (order : Order F) (key v : String) (x : Executor E) (o : Option String)
      → lookup key x.cache ≡ o
      → (from_cache rest store timer order key x o).0 ≡ ok v
      → lookup key (from_cache rest store timer order key x o).1.cache ≡ some v
  from_cache-caches order key v x (some id) e h = cc
  from_cache-caches order key v x none e h =
      from_store-caches order key v x.cache (ask_store rest store timer store key x.env) h

  place_order-caches :
      (order : Order F) (v : String) (x : Executor E)
      → order.client_order_id ≢ ""
      → (place_order rest store timer order x).0 ≡ ok v
      → lookup (key_of order) (place_order rest store timer order x).1.cache ≡ some v
  unfolding place_order
  place_order-caches order v x named h = elim (Bool-cases (str_eq order.client_order_id "")) [
    | inl e ↦ absurd (named ((eq_iff _ _).0 e))
    | inr e ↦
        let h' : (from_cache rest store timer order (key_of order) x
              (lookup (key_of order) x.cache)).0
            ≡ ok v =
          rw e at h in
        rw e (from_cache-caches order (key_of order) v x (lookup (key_of order) x.cache) refl h')
  ]

  cached-place_order :
      (order : Order F) (v : String) (x : Executor E)
      → order.client_order_id ≢ ""
      → lookup (key_of order) x.cache ≡ some v
      → place_order rest store timer order x ≡ (ok v, x)
  unfolding place_order
  cached-place_order order v x named h = elim (Bool-cases (str_eq order.client_order_id "")) [
    | inl e ↦ absurd (named ((eq_iff _ _).0 e))
    | inr e ↦ rw e (rw h)
  ]

  -- The executor after it has placed the orders one after the other.
  unfoldable pub place_all : List (Order F) → Executor E → Executor E
  place_all [] x = x
  place_all (order ∷ orders) x = place_all orders (place_order rest store timer order x).1

  place_all-keeps :
      (orders : List (Order F)) (k v : String) (x : Executor E)
      → lookup k x.cache ≡ some v
      → lookup k (place_all orders x).cache ≡ some v
  unfolding place_all
  place_all-keeps [] k v x h = h
  place_all-keeps (order ∷ orders) k v x h =
      place_all-keeps orders k v (place_order rest store timer order x).1
        (place_order-keeps order k v x h)

  -- When an order with a client order id has been placed, every later order with that id, whatever
  -- else it asks for and whatever was placed in between, returns the first order's id and changes
  -- nothing: neither the exchange nor the store is asked.
  pub place_order_once :
      (order again : Order F) (orders : List (Order F)) (v : String) (x : Executor E)
      → order.client_order_id ≢ ""
      → again.client_order_id ≡ order.client_order_id
      → (place_order rest store timer order x).0 ≡ ok v
      → let x' = place_all orders (place_order rest store timer order x).1 in
        place_order rest store timer again x' ≡ (ok v, x')
  place_order_once order again orders v x named same h =
      cached-place_order again v _ (rw same named)
        (rw same (place_all-keeps orders (key_of order) v _ (place_order-caches order v x named h)))

-- What a store promises that does not fail: `Get` after `Set` finds the value, and `Get` finds what
-- it found the last time.
pub record Keeps {E : Type 0} (st : Store E) : Type 0 where
  pub get-set : (k v : String) (e : E) → st.get k (st.set k v e).1 ≡ (ok (some v), (st.set k v e).1)
  pub get-get :
      (k v : String) (e e' : E) → st.get k e ≡ (ok (some v), e') → st.get k e' ≡ (ok (some v), e')

module _ {F E : Type 0} (rest : RestClient F E) (st : Store E) (timer : Timer E)
    (laws : Keeps st) where
  open laws use {get-set, get-get}

  remember-stores :
      (key v : String) (cache : List (String × String)) (r : Result String × E)
      → (remember rest (some st) timer key cache r).0 ≡ ok v
      → let e = (remember rest (some st) timer key cache r).1.env in st.get key e ≡ (ok (some v), e)
  remember-stores key v cache (ok id, e) h =
      let same : id ≡ v = cc in
      let e' = (st.set key id e).1 in
      subst (λ w. st.get key e' ≡ (ok (some w), e')) same (get-set key id e)
  remember-stores key v cache (err x, e) h = cc

  from_store-stores :
      (order : Order F) (key v : String) (cache : List (String × String)) (e : E)
      (r : Result (Option String) × E)
      → st.get key e ≡ r
      → (from_store rest (some st) timer order key cache r).0 ≡ ok v
      → let e' = (from_store rest (some st) timer order key cache r).1.env in
        st.get key e' ≡ (ok (some v), e')
  from_store-stores order key v cache e (err x, e') g h = cc
  from_store-stores order key v cache e (ok (some id), e') g h =
      let same : id ≡ v = cc in
      subst (λ w. st.get key e' ≡ (ok (some w), e')) same (get-get key id e e' g)
  from_store-stores order key v cache e (ok none, e') g h =
      remember-stores key v cache (place_with_retry rest (some st) timer order e') h

  uncached-stores :
      (order : Order F) (v : String) (x : Executor E)
      → order.client_order_id ≢ ""
      → lookup (key_of order) x.cache ≡ none
      → (place_order rest (some st) timer order x).0 ≡ ok v
      → let e = (place_order rest (some st) timer order x).1.env in
        st.get (key_of order) e ≡ (ok (some v), e)
  unfolding place_order
  uncached-stores order v x named miss h = elim (Bool-cases (str_eq order.client_order_id "")) [
    | inl e ↦ absurd (named ((eq_iff _ _).0 e))
    | inr e ↦
        let h' : (from_store rest (some st) timer order (key_of order) x.cache
              (st.get (key_of order) x.env)).0
            ≡ ok v =
          rw (e, miss) at h in
        rw (e, miss)
          (from_store-stores order (key_of order) v x.cache x.env (st.get (key_of order) x.env) refl
            h')
  ]

  stored-place_order :
      (order : Order F) (v : String) (e : E)
      → order.client_order_id ≢ ""
      → st.get (key_of order) e ≡ (ok (some v), e)
      → place_order rest (some st) timer order (record { cache = []; env = e })
        ≡ (ok v, record { cache = insert (key_of order) v []; env = e })
  unfolding place_order lookup
  stored-place_order order v e named g = elim (Bool-cases (str_eq order.client_order_id "")) [
    | inl q ↦ absurd (named ((eq_iff _ _).0 q))
    | inr q ↦ rw (q, g)
  ]

  -- The bot stops after it has placed an order with a client order id, and starts again with an empty
  -- cache and a store that has kept what it was given. The same order then returns the first order's
  -- id from the store, and the exchange is not asked.
  pub place_order_restart :
      (order : Order F) (v : String) (x : Executor E)
      → order.client_order_id ≢ ""
      → lookup (key_of order) x.cache ≡ none
      → (place_order rest (some st) timer order x).0 ≡ ok v
      → let e = (place_order rest (some st) timer order x).1.env in
        place_order rest (some st) timer order (record { cache = []; env = e })
        ≡ (ok v, record { cache = insert (key_of order) v []; env = e })
  place_order_restart order v x named miss h =
      stored-place_order order v _ named (uncached-stores order v x named miss h)
