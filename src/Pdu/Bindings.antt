-- ===== src/Pdu/Bindings.antt =====
-- The searches in a list of variable bindings, and the units made of lists (pdu.go).
use snmpclient.Prelude.{
  ℕ, ◌≡◌, refl, ap, sym, ◌∙◌, ◌⊎◌, inl, inr, true, false, Bool-cases, none, some, List, [], ◌∷◌,
  ◌++◌, map, append_assoc, append-nil, All, ok,
}
use snmpclient.Prelude.Int.{ℤ, pos}
use snmpclient.Oid.{Oid, equal}
use snmpclient.Pdu.{
  VariableBinding, PduV1, Pdu, v1, scoped, empty_pdu, or_null, append_variable_binding, new_pdu,
  append_var_binds, new_pdu_with_var_binds, match_oid, fill_var_binds,
}

-- `MatchOid` finds nothing exactly when no binding has the name, and otherwise the first that has:
-- the list is cut into a part without the name, the binding found, and the rest.
pub match_oid_lem :
    (o : Oid) (vs : List VariableBinding)
    → ((match_oid o vs ≡ none) × All (λ v. equal v.name (some o) ≡ false) vs)
      ⊎ ((before : List VariableBinding) × (v : VariableBinding) × (after : List VariableBinding)
          × (vs ≡ before ++ v ∷ after)
          × All (λ u. equal u.name (some o) ≡ false) before
          × (equal v.name (some o) ≡ true)
          × (match_oid o vs ≡ some v))
unfolding match_oid
match_oid_lem o [] = inl (refl, tt)
match_oid_lem o (v ∷ vs) = elim (Bool-cases (equal v.name (some o))) [
  | inl found ↦ inr ([], v, vs, refl, tt, found, rw found)
  | inr other ↦ elim (match_oid_lem o vs) [
    | inl (e, all) ↦ inl (rw (other, e), (other, all))
    | inr (before, w, after, e, all, found, r) ↦
        inr (v ∷ before, w, after, ap (λ l. v ∷ l) e, (other, all), found, rw (other, r))
  ]
]

-- The bindings with a null value in place of a nil variable.
abbrev pub bound : List VariableBinding → List VariableBinding
unfolding or_null
bound = map (λ v. record { name = v.name; variable = some (or_null v.variable) })

abbrev with_bindings : PduV1 → List VariableBinding → PduV1
with_bindings p vs = record p { variable_bindings = p.variable_bindings ++ vs }

-- The versions that `NewPdu` knows, and the unit of each: plain for V1 and V2c, and for V3 scoped in
-- an empty context.
abbrev pub Known : ℤ → Type 0
Known ver = (ver ≡ pos 0) ⊎ (ver ≡ pos 1) ⊎ (ver ≡ pos 3)

abbrev pub in_version : {ver : ℤ} → Known ver → PduV1 → Pdu
in_version (inl is_v1) p = v1 p
in_version (inr (inl is_v2c)) p = v1 p
in_version (inr (inr is_v3)) p =
    scoped (record { context_engine_id = []; context_name = []; pdu_v1 = p })

append-in_version :
    {ver : ℤ} (known : Known ver) (v : VariableBinding) (p : PduV1)
    → append_variable_binding v.name v.variable (in_version known p)
      ≡ in_version known (with_bindings p (bound (v ∷ [])))
unfolding append_variable_binding
append-in_version (inl e) v p = refl
append-in_version (inr (inl e)) v p = refl
append-in_version (inr (inr e)) v p = refl

append_all-in_version :
    {ver : ℤ} (known : Known ver) (vs : List VariableBinding) (p : PduV1)
    → append_var_binds vs (in_version known p) ≡ in_version known (with_bindings p (bound vs))
unfolding append_var_binds
append_all-in_version known [] p =
    ap (λ l. in_version known (record p { variable_bindings = l }))
      (sym (append-nil p.variable_bindings))
append_all-in_version known (v ∷ vs) p =
    ap (append_var_binds vs) (append-in_version known v p)
    ∙ append_all-in_version known vs (with_bindings p (bound (v ∷ [])))
    ∙ ap (λ l. in_version known (record p { variable_bindings = l }))
        (append_assoc p.variable_bindings (bound (v ∷ [])) (bound vs))

new_pdu-in_version :
    (ver : ℤ) (t : ℕ) (known : Known ver) → new_pdu ver t ≡ some (in_version known (empty_pdu t))
unfolding new_pdu
new_pdu-in_version ver t (inl e) = rw e
new_pdu-in_version ver t (inr (inl e)) = rw e
new_pdu-in_version ver t (inr (inr e)) = rw e

-- `NewPduWithVarBinds` for a known version makes a unit of that version, scoped in an empty context
-- for V3 and plain for V1 and V2c: of the type asked for, with the bindings in their order, a null
-- value in place of each nil variable, and zero in every other field.
pub new_pdu_with_var_binds_lem :
    (ver : ℤ) (t : ℕ) (vs : List VariableBinding) (known : Known ver)
    → new_pdu_with_var_binds ver t vs
      ≡ ok (some (in_version known (record (empty_pdu t) { variable_bindings = bound vs })))
unfolding new_pdu_with_var_binds fill_var_binds
new_pdu_with_var_binds_lem ver t vs known =
    ap (λ m. fill_var_binds m vs) (new_pdu-in_version ver t known)
    ∙ ap (λ p. ok (some p))
        (append_all-in_version known vs (empty_pdu t) ∙ unfold empty_pdu in refl)
