-- ===== src/Partners/Details.antt =====
-- The values of a contact and of an address, past their company and their kind.
use mathlib.Core.Path.{subst}
use jean_fourche.Base.{String, Bool, true, refl, ap, sym, inl, inr, All, if◌then◌else◌, Bool-cases}
use jean_fourche.Base.Result.{Result, ok, ◌>>=◌, Holds, Holds-bind, Holds-if}
use jean_fourche.Partners.Records.{
  Value, char, ref, Vals, set_val, set_vals, Partner, Proxy, Settings, is_set, simple_fields,
}
use jean_fourche.Partners.Odoo.{Odoo, Error, Laws}
use jean_fourche.Partners.Proxy.{
  World, set_char, add_language, add_places, get_or_create_company_contact,
}
use jean_fourche.Partners.Keeps.{IsOther, Keeps, set_val-Keeps, set_vals-Keeps}
use jean_fourche.Partners.Company.{
  IsConfigured, IsKept, IsSound, add_language-Keeps, add_places-Keeps,
  get_or_create_company_contact-IsSound,
}

module _ (o : Odoo) (s : Settings) (p : Proxy) (laws : Laws o) (h : IsConfigured s)
    (v : Value) where
  abbrev pub IsPrepared : Vals × World → Type 0
  IsPrepared r = Keeps s.company_id v r.0 × IsKept o s p laws h r.1.company_partner

  pub set_char-Keeps :
      (k t : String) (vals : Vals)
      → IsOther k
      → Keeps s.company_id v vals
      → Keeps s.company_id v (set_char o s p k t vals)
  set_char-Keeps k t vals i w = elim (Bool-cases (is_set t)) [
    | inl y ↦
        subst (Keeps s.company_id v) (sym (ap (λ b. if b then set_val k (char t) vals else vals) y))
          (set_val-Keeps s.company_id v k (char t) vals i w)
    | inr n ↦
        subst (Keeps s.company_id v) (sym (ap (λ b. if b then set_val k (char t) vals else vals) n))
          w
  ]

  simple_fields-Other : All (λ kv. IsOther kv.0) (simple_fields p)
  simple_fields-Other = (
    (refl, refl),
    (
      (refl, refl),
      ((refl, refl), ((refl, refl), ((refl, refl), ((refl, refl), ((refl, refl), tt))))),
    ),
  )

  -- Values that may be put under the company contact.
  pub under_company-IsPrepared :
      (b : Bool) (vals : Vals) (w : World)
      → Keeps s.company_id v vals
      → IsKept o s p laws h w.company_partner
      → Holds IsPrepared (
          if b
          then (get_or_create_company_contact o s p w >>= λ r.
              ok (set_val "parent_id" (ref r.0.id) vals, r.1))
          else ok (vals, w))
  under_company-IsPrepared b vals w k c =
      Holds-if {E = Error} IsPrepared b (get_or_create_company_contact o s p w >>= child)
        (ok (vals, w))
        (λ _.
          Holds-bind IsPrepared (IsSound o s p laws h true) (get_or_create_company_contact o s p w)
            child (get_or_create_company_contact-IsSound o s p laws h w c)
            (λ r i.
              (set_val-Keeps s.company_id v "parent_id" (ref r.0.id) vals (refl, refl) k, i.1)))
        (λ _. (k, c))
    where
      child : Partner × World → Result Error (Vals × World)
      child r = ok (set_val "parent_id" (ref r.0.id) vals, r.1)

  -- The address, the country, the state, the language and a last field.
  pub completed-IsPrepared :
      (finish : Vals → Vals) (m : Result Error (Vals × World))
      → ((vals : Vals) → Keeps s.company_id v vals → Keeps s.company_id v (finish vals))
      → Holds IsPrepared m
      → Holds IsPrepared (
          m >>= λ r.
          add_places o s p (set_vals (simple_fields p) r.0) >>= add_language o s p >>= λ vals.
          ok (finish vals, r.1))
  completed-IsPrepared finish m f i =
      Holds-bind IsPrepared IsPrepared m (λ r. detailed r >>= finished r.1) i
        (λ r k.
          Holds-bind IsPrepared (Keeps s.company_id v) (detailed r) (finished r.1)
            (Holds-bind (Keeps s.company_id v) (Keeps s.company_id v)
              (add_places o s p (set_vals (simple_fields p) r.0)) (add_language o s p)
              (add_places-Keeps o s p laws h v (set_vals (simple_fields p) r.0)
                (set_vals-Keeps s.company_id v (simple_fields p) r.0 simple_fields-Other k.0))
              (λ vals l. add_language-Keeps o s p laws h v vals l))
            (λ vals l. (f vals l, k.1)))
    where
      detailed : Vals × World → Result Error Vals
      detailed r = add_places o s p (set_vals (simple_fields p) r.0) >>= add_language o s p

      finished : World → Vals → Result Error (Vals × World)
      finished w vals = ok (finish vals, w)
