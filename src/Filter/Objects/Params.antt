-- ===== src/Filter/Objects/Params.antt =====
-- The query parameters that a script reads (src/filter/api.rs, `params`), and what a getter keeps.
use mini_proxad.Prelude.{
  ◌≡◌, ◌↔◌, refl, sym, ap, ◌∙◌, Option, none, some, true, false, List, [], ◌∷◌, ◌++◌, if◌then◌else◌,
  Bytes, append_assoc, append-nil, Bool-cases, inl, inr, arith,
}
use mini_proxad.Http.{HttpCrate}
use mini_proxad.Filter.Objects.{eq_bytes, ParamDict, PyUri, add_param, add_params, get_params}

eq_bytes_iff : (xs ys : Bytes) → (eq_bytes xs ys ≡ true) ↔ (xs ≡ ys)
unfolding eq_bytes
eq_bytes_iff [] [] = ground arith
eq_bytes_iff [] (b ∷ ys) = ground arith
eq_bytes_iff (a ∷ xs) [] = ground arith
eq_bytes_iff (a ∷ xs) (b ∷ ys) = let rest = eq_bytes_iff xs ys in ground arith

abbrev pub lookup : ParamDict → Bytes → Option (List Bytes)
lookup [] k = none
lookup ((k', vs) ∷ rest) k = if eq_bytes k' k then some vs else lookup rest k

-- The values of a key in a query, in order.
abbrev pub values_of : Bytes → List (Bytes × Bytes) → List Bytes
values_of k [] = []
values_of k ((k', v) ∷ pairs) = if eq_bytes k' k then v ∷ values_of k pairs else values_of k pairs

-- The values that a dict holds, followed by others; `none` for none at all.
abbrev pub followed_by : Option (List Bytes) → List Bytes → Option (List Bytes)
followed_by none [] = none
followed_by none (v ∷ vs) = some (v ∷ vs)
followed_by (some old) vs = some (old ++ vs)

lookup-add_param :
    (dict : ParamDict) (k v n : Bytes)
    → lookup (add_param dict k v) n
      ≡ (if eq_bytes k n then followed_by (lookup dict n) (v ∷ []) else lookup dict n)
unfolding add_param
lookup-add_param [] k v n = refl
lookup-add_param ((k', vs) ∷ rest) k v n = elim (Bool-cases (eq_bytes k' k)) [
  | inl e ↦
      let same : k' ≡ k = (eq_bytes_iff k' k).0 e in
      let name : eq_bytes k' n ≡ eq_bytes k n = ap (λ x. eq_bytes x n) same in
      elim (Bool-cases (eq_bytes k n)) [
        | inl f ↦ rw (e, name, f) refl
        | inr f ↦ rw (e, name, f) refl
      ]
  | inr e ↦ elim (Bool-cases (eq_bytes k' n)) [
    | inl f ↦
        let other : eq_bytes k n ≡ false = elim (Bool-cases (eq_bytes k n)) [
          | inl g ↦
              let same : k' ≡ k = (eq_bytes_iff k' n).0 f ∙ sym ((eq_bytes_iff k n).0 g) in
              let t = (eq_bytes_iff k' k).1 same in cc
          | inr g ↦ g
        ] in
        rw (e, f, other) refl
    | inr f ↦ rw (e, f) (lookup-add_param rest k v n)
  ]
]

followed_twice :
    (o : Option (List Bytes)) (v : Bytes) (vs : List Bytes)
    → followed_by (followed_by o (v ∷ [])) vs ≡ followed_by o (v ∷ vs)
followed_twice none v vs = refl
followed_twice (some old) v vs = ap some (append_assoc old (v ∷ []) vs)

followed_by_nil : (o : Option (List Bytes)) → followed_by o [] ≡ o
followed_by_nil none = refl
followed_by_nil (some old) = ap some (append-nil old)

lookup-add_params :
    (pairs : List (Bytes × Bytes)) (dict : ParamDict) (n : Bytes)
    → lookup (add_params dict pairs) n ≡ followed_by (lookup dict n) (values_of n pairs)
unfolding add_params
lookup-add_params [] dict n = sym (followed_by_nil (lookup dict n))
lookup-add_params ((k, v) ∷ pairs) dict n =
    lookup-add_params pairs (add_param dict k v) n
    ∙ rw (lookup-add_param dict k v n) (elim (Bool-cases (eq_bytes k n)) [
      | inl e ↦ rw e (followed_twice (lookup dict n) v (values_of n pairs))
      | inr e ↦ rw e refl
    ])

get_params_again :
    {w : HttpCrate} (query : w.Uri → Option (List (Bytes × Bytes))) (ob : PyUri w)
    (dict : ParamDict)
    → ob.params ≡ some dict
    → get_params {w = w} query ob ≡ (dict, ob)
unfolding get_params
get_params_again query ob dict h = rw (h, get_params) (ap (λ o. (dict, record ob { params = o })) h)

get_params_first :
    {w : HttpCrate} (query : w.Uri → Option (List (Bytes × Bytes))) (ob : PyUri w)
    (pairs : List (Bytes × Bytes))
    → ob.params ≡ none
    → query ob.uri ≡ some pairs
    → get_params {w = w} query ob
      ≡ (add_params [] pairs, record ob { params = some (add_params [] pairs) })
unfolding get_params
get_params_first query ob pairs h k = rw (h, k, get_params) refl

-- The parameters that a script reads first from a `Uri`: under each key the values that the query
-- has for it, in order, and no entry for a key without a value; the object keeps them, and reading
-- them again gives the same and changes nothing.
pub get_params_lem :
    {w : HttpCrate} (query : w.Uri → Option (List (Bytes × Bytes))) (ob : PyUri w)
    (pairs : List (Bytes × Bytes)) (n : Bytes)
    → ob.params ≡ none
    → query ob.uri ≡ some pairs
    → let r = get_params {w = w} query ob in
      (lookup r.0 n ≡ followed_by none (values_of n pairs))
      × (r.1.params ≡ some r.0)
      × (get_params {w = w} query r.1 ≡ r)
get_params_lem query ob pairs n h k =
    let first = get_params_first query ob pairs h k in
    let kept : (get_params query ob).1.params ≡ some (get_params query ob).0 = rw first refl in
    (
      rw first (lookup-add_params pairs [] n),
      kept,
      get_params_again query (get_params query ob).1 (get_params query ob).0 kept,
    )
