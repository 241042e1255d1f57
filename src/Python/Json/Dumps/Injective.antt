-- ===== src/Python/Json/Dumps/Injective.antt =====
-- Two values with one text are one value, up to the order of keys.
use wu_kong_easy_sdk_csharp.Common.{List, [], ◌∷◌, ◌≡◌, refl, ap, ◌≢◌, ◌↔◌, sym}
use wu_kong_easy_sdk_csharp.Python.Json.{
  Json, null, bool, int, real, str, arr, obj, Items, nil, cons, Fields, end, field,
}
use wu_kong_easy_sdk_csharp.Python.Json.Dumps.{
  Token, rbrace, rbracket, sort_keys, emit, emit_items, emit_more, emit_fields, emit_rest, dumps,
}

-- No value begins with a closing bracket.
emit-ne-rbracket : (v : Json) (r s : List Token) → emit v r ≢ rbracket ∷ s
unfolding emit
emit-ne-rbracket null r s h = cc
emit-ne-rbracket _ r s h = cc

mutual
  unfolding emit

  emit-injective : (v w : Json) (r s : List Token) → emit v r ≡ emit w s → (v ≡ w) × (r ≡ s)
  emit-injective (arr xs) (arr ys) r s h =
      let (e, f) = items-injective xs ys r s (cc) in (ap arr e, f)
  emit-injective (obj fs) (obj gs) r s h =
      let (e, f) = fields-injective fs gs r s (cc) in (ap obj e, f)
  emit-injective null null r s h = (refl, cc)
  emit-injective (bool a) (bool b) r s h = (cc, cc)
  emit-injective (int a) (int b) r s h = (cc, cc)
  emit-injective (real a j) (real b k) r s h = (cc, cc)
  emit-injective (str a) (str b) r s h = (cc, cc)
  emit-injective _ _ r s h = absurd (cc)

  items-injective :
      (xs ys : Items) (r s : List Token)
      → emit_items xs (rbracket ∷ r) ≡ emit_items ys (rbracket ∷ s)
      → (xs ≡ ys) × (r ≡ s)
  items-injective nil nil r s h = (refl, cc)
  items-injective nil (cons y ys) r s h = absurd (emit-ne-rbracket y _ r (sym h))
  items-injective (cons x xs) nil r s h = absurd (emit-ne-rbracket x _ s h)
  items-injective (cons x xs) (cons y ys) r s h =
      let (e, f) = emit-injective x y _ _ h in let (e', f') = more-injective xs ys r s f in (cc, f')

  more-injective :
      (xs ys : Items) (r s : List Token)
      → emit_more xs (rbracket ∷ r) ≡ emit_more ys (rbracket ∷ s)
      → (xs ≡ ys) × (r ≡ s)
  more-injective nil nil r s h = (refl, cc)
  more-injective nil (cons y ys) r s h = absurd (cc)
  more-injective (cons x xs) nil r s h = absurd (cc)
  more-injective (cons x xs) (cons y ys) r s h =
      let (e, f) =
        emit-injective x y (emit_more xs (rbracket ∷ r)) (emit_more ys (rbracket ∷ s)) (cc) in
      let (e', f') = more-injective xs ys r s f in (cc, f')

  fields-injective :
      (fs gs : Fields) (r s : List Token)
      → emit_fields fs (rbrace ∷ r) ≡ emit_fields gs (rbrace ∷ s)
      → (fs ≡ gs) × (r ≡ s)
  fields-injective end end r s h = (refl, cc)
  fields-injective end (field k v gs) r s h = absurd (cc)
  fields-injective (field j v fs) end r s h = absurd (cc)
  fields-injective (field j v fs) (field k w gs) r s h =
      let (e, f) =
        emit-injective v w (emit_rest fs (rbrace ∷ r)) (emit_rest gs (rbrace ∷ s)) (cc) in
      let (e', f') = rest-injective fs gs r s f in (cc, f')

  rest-injective :
      (fs gs : Fields) (r s : List Token)
      → emit_rest fs (rbrace ∷ r) ≡ emit_rest gs (rbrace ∷ s)
      → (fs ≡ gs) × (r ≡ s)
  rest-injective end end r s h = (refl, cc)
  rest-injective end (field k v gs) r s h = absurd (cc)
  rest-injective (field j v fs) end r s h = absurd (cc)
  rest-injective (field j v fs) (field k w gs) r s h =
      let (e, f) =
        emit-injective v w (emit_rest fs (rbrace ∷ r)) (emit_rest gs (rbrace ∷ s)) (cc) in
      let (e', f') = rest-injective fs gs r s f in (cc, f')

-- Two values print alike exactly when they are equal up to the order of keys; so True and 1, or 1 and
-- 1.0, which `==` identifies, print differently.
pub dumps_iff : (v w : Json) → (dumps v ≡ dumps w) ↔ (sort_keys v ≡ sort_keys w)
unfolding dumps
dumps_iff v w =
    (λ h. (emit-injective (sort_keys v) (sort_keys w) [] [] h).0, λ e. ap (λ x. emit x []) e)
