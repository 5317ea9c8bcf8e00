-- ===== src/Partners/Mapped.antt =====
-- The contact that an order's customer is mapped to, where it is compatible:
-- integration/models/integration_res_partner_proxy.py.
use jean_fourche.Base.{
  ℕ, Bool, true, false, not, ◌≡◌, refl, ap, ◌⊎◌, inl, inr, Option, none, some, arith,
}
use jean_fourche.Base.Result.{Result, ok, ◌>>=◌, Holds, Holds-bind, Holds-if}
use jean_fourche.Partners.Records.{Partner, Proxy, Settings, is_set}
use jean_fourche.Partners.Odoo.{Odoo, Error, Laws, Belongs}
use jean_fourche.Partners.Proxy.{World, browse, get_or_create_company_contact}
use jean_fourche.Partners.Contact.{
  is_other, is_fit, company_if_named, is_mapping_compatible, if_compatible, compatible_customer,
  get_customer, get_compatible_mapped_partner,
}
use jean_fourche.Partners.Company.{
  IsConfigured, IsKept, IsSound, get_or_create_company_contact-IsSound,
}

-- A person, unless the store has companies alone; then the company, where the order names one.
abbrev pub IsUsable : Settings → Proxy → Partner → Type 0
IsUsable s p q =
    Belongs s.company_id q
    × (s.skip_individual_contacts ≡ false → q.is_company ≡ false)
    × (s.skip_individual_contacts ≡ true → is_set p.company_name ≡ true → q.is_company ≡ true)

other-Belongs : (i : Option ℕ) (c : ℕ) → is_other i c ≡ false → (i ≡ none) ⊎ (i ≡ some c)
other-Belongs none c h = inl refl
other-Belongs (some d) c h = inr (ap some (ground arith))

-- What the checks of a mapped contact leave.
is_fit-IsUsable :
    (s : Settings) (p : Proxy) (q : Partner) (parent expected : Option Partner)
    → is_fit s q parent expected ≡ true
    → IsUsable s p q
is_fit-IsUsable s p q parent expected h =
    (other-Belongs q.company_id s.company_id (ground arith), λ e. ground arith, λ e f. ground arith)

module _ (o : Odoo) (s : Settings) (p : Proxy) (laws : Laws o) (h : IsConfigured s) where
  abbrev pub IsFound : Option Partner → Type 0
  IsFound none = Unit
  IsFound (some q) = IsUsable s p q

  abbrev pub IsFine : Option Partner × World → Type 0
  IsFine r = IsFound r.0 × IsKept o s p laws h r.1.company_partner

  company_if_named-IsKept :
      (w : World)
      → IsKept o s p laws h w.company_partner
      → Holds (λ r. IsKept o s p laws h r.1.company_partner) (company_if_named o s p w)
  company_if_named-IsKept w c =
      Holds-if {E = Error} Kept (is_set p.company_name)
        (get_or_create_company_contact o s p w >>= named) (ok (none, w))
        (λ _.
          Holds-bind Kept (IsSound o s p laws h true) (get_or_create_company_contact o s p w) named
            (get_or_create_company_contact-IsSound o s p laws h w c) (λ r i. i.1))
        (λ _. c)
    where
      named : Partner × World → Result Error (Option Partner × World)
      named r = ok (some r.0, r.1)

      Kept : Option Partner × World → Type 0
      Kept r = IsKept o s p laws h r.1.company_partner

  is_mapping_compatible-IsUsable :
      (q : Partner) (w : World)
      → IsKept o s p laws h w.company_partner
      → Holds
          (λ r. (r.0 ≡ true → IsUsable s p q) × IsKept o s p laws h r.1.company_partner)
          (is_mapping_compatible o s p q w)
  unfolding is_mapping_compatible
  is_mapping_compatible-IsUsable q w c =
      Holds-if {E = Error} Checked (not q.active) (ok (false, w))
        (company_if_named o s p w >>= compared) (λ _. ((λ e. absurd (ground arith)), c))
        (λ _.
          Holds-bind Checked (λ r. IsKept o s p laws h r.1.company_partner)
            (company_if_named o s p w) compared (company_if_named-IsKept w c)
            (λ r k. ((λ e. is_fit-IsUsable s p q (browse q.parent_id r.1) r.0 e), k)))
    where
      compared : Option Partner × World → Result Error (Bool × World)
      compared r = ok (is_fit s q (browse q.parent_id r.1) r.0, r.1)

      Checked : Bool × World → Type 0
      Checked r = (r.0 ≡ true → IsUsable s p q) × IsKept o s p laws h r.1.company_partner

  compatible_customer-IsFine :
      (q : Option Partner) (w : World)
      → IsKept o s p laws h w.company_partner
      → Holds IsFine (compatible_customer o s p (q, w))
  compatible_customer-IsFine none w c = (tt, c)
  compatible_customer-IsFine (some q) w c =
      Holds-if {E = Error} IsFine (not q.active) (ok (none, w))
        (is_mapping_compatible o s p q w >>= if_compatible o s p q) (λ _. (tt, c))
        (λ _.
          Holds-bind IsFine
            (λ r. (r.0 ≡ true → IsUsable s p q) × IsKept o s p laws h r.1.company_partner)
            (is_mapping_compatible o s p q w) (if_compatible o s p q)
            (is_mapping_compatible-IsUsable q w c) by_answer)
    where
      by_answer :
          (r : Bool × World)
          → (r.0 ≡ true → IsUsable s p q) × IsKept o s p laws h r.1.company_partner
          → Holds IsFine (if_compatible o s p q r)
      by_answer (true, v) (u, k) = (u refl, k)
      by_answer (false, v) (u, k) = (tt, k)

  pub get_compatible_mapped_partner-IsFine :
      (w : World)
      → IsKept o s p laws h w.company_partner
      → Holds IsFine (get_compatible_mapped_partner o s p w)
  unfolding get_compatible_mapped_partner
  get_compatible_mapped_partner-IsFine w c =
      Holds-if {E = Error} IsFine (is_set p.external_id)
        (compatible_customer o s p (get_customer w)) (ok (none, w))
        (λ _. compatible_customer-IsFine (get_customer w).0 (get_customer w).1 c) (λ _. (tt, c))
