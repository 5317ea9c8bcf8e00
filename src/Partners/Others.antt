-- ===== src/Partners/Others.antt =====
-- Values of a contact that have none for its company and its kind.
use text.Mathlib.Text.{◌==◌ as str_eq}
use jean_fourche.Base.{ℕ, String, refl, Option, none, some, [], ◌∷◌, All, Bool-cases, inl, inr}
use jean_fourche.Base.Result.{ok, ◌>>=◌, Holds, Holds-bind_any}
use jean_fourche.Partners.Records.{
  Value, ref, Vals, set_val, set_some, Proxy, Settings, simple_fields,
}
use jean_fourche.Partners.Odoo.{Odoo, Spares}
use jean_fourche.Partners.Proxy.{add_places, find_odoo_country, find_odoo_state}
use jean_fourche.Partners.Keeps.{IsOther}

abbrev pub Others : Vals → Type 0
Others vals = All (λ kv. IsOther kv.0) vals

pub Others-Spares :
    (vals : Vals) → Others vals → Spares "company_id" vals × Spares "is_company" vals
Others-Spares [] h = (tt, tt)
Others-Spares (kv ∷ vals) h =
    let r : Spares "company_id" vals × Spares "is_company" vals = Others-Spares vals h.1 in
    ((h.0.0, r.0), (h.0.1, r.1))

set_val-Others :
    (k : String) (v : Value) (vals : Vals) → IsOther k → Others vals → Others (set_val k v vals)
set_val-Others k v [] i h = (i, tt)
set_val-Others k v ((j, u) ∷ vals) i h = elim (Bool-cases (str_eq j k)) [
  | inl same ↦ rw same h
  | inr apart ↦ rw apart (h.0, set_val-Others k v vals i h.1)
]

set_some-Others :
    (k : String) (o : Option ℕ) (vals : Vals) → IsOther k → Others vals → Others (set_some k o vals)
set_some-Others k none vals i h = h
set_some-Others k (some n) vals i h = set_val-Others k (ref n) vals i h

simple_fields-Others : (p : Proxy) → Others (simple_fields p)
simple_fields-Others p = (
  (refl, refl),
  (
    (refl, refl),
    ((refl, refl), ((refl, refl), ((refl, refl), ((refl, refl), ((refl, refl), tt))))),
  ),
)

-- What a found contact without an address gets is its address.
pub add_places-Others :
    (o : Odoo) (s : Settings) (p : Proxy) → Holds Others (add_places o s p (simple_fields p))
add_places-Others o s p =
    Holds-bind_any Others (find_odoo_country o s p)
      (λ country. find_odoo_state o s p country >>= λ state.
        ok (set_some "state_id" state (set_some "country_id" country (simple_fields p))))
      (λ country.
        Holds-bind_any Others (find_odoo_state o s p country)
          (λ state.
            ok (set_some "state_id" state (set_some "country_id" country (simple_fields p))))
          (λ state.
            set_some-Others "state_id" state (set_some "country_id" country (simple_fields p))
              (refl, refl)
              (set_some-Others "country_id" country (simple_fields p) (refl, refl)
                (simple_fields-Others p))))
