-- ===== src/Partners/Memory.antt =====
-- A database of contacts in memory, which compares texts as they are and skips the joined conditions.
use text.Mathlib.Text.{◌==◌ as str_eq}
use mathlib.Core.Path.{subst}
use jean_fourche.Base.{
  ℕ, String, Bool, true, false, not, ◌≡◌, refl, ap, sym, ◌⊎◌, inl, inr, Option, none, some, List,
  [], ◌∷◌, In, In-filter, filter, all, any, ◌==◌, if◌then◌else◌, arith,
}
use jean_fourche.Base.Result.{ok}
use jean_fourche.Partners.Records.{
  Vals, Value, no, yes, char, ref, truthy, get_val, set_vals, Partner,
}
use jean_fourche.Partners.Domain.{Term, leaf, either, Operand, one, among}
use jean_fourche.Partners.Odoo.{Spares, Odoo, Laws, Includes, ref_of}

-- The value of a field as a domain compares it, for the company and the kind.
abbrev is_company_value : Option ℕ → Value → Bool
is_company_value none v = not (truthy v)
is_company_value (some c) (ref d) = c == d
is_company_value (some c) v = false

abbrev same_flag : Bool → Bool → Bool
same_flag true b = b
same_flag false b = not b

abbrev same_text : Value → String → Bool
same_text (char t) s = str_eq t s
same_text v s = false

abbrev same_ref : Option ℕ → ℕ → Bool
same_ref none i = false
same_ref (some j) i = j == i

abbrev meets_value : String → Value → Partner → Bool
meets_value key (char s) q = same_text (get_val key q.columns) s
meets_value key (ref i) q =
    same_ref (if str_eq key "parent_id" then q.parent_id else ref_of (get_val key q.columns)) i
meets_value key v q = true

abbrev meets_leaf : String → Operand → Partner → Bool
meets_leaf key (one v) q =
    if str_eq key "is_company"
    then same_flag q.is_company (truthy v)
    else if str_eq key "id"
    then false
    else meets_value key v q
meets_leaf key (among vs) q =
    if str_eq key "company_id"
    then any (is_company_value q.company_id) vs
    else if str_eq key "is_company"
    then any (λ v. same_flag q.is_company (truthy v)) vs
    else true

abbrev meets : Partner → Term → Bool
meets q (leaf key op v) = meets_leaf key v q
meets q (either t u) = true

abbrev written_id : String → Vals → Option ℕ → Option ℕ
written_id key [] old = old
written_id key ((k, v) ∷ vals) old = if str_eq k key then ref_of v else written_id key vals old

abbrev written_flag : String → Vals → Bool → Bool
written_flag key [] old = old
written_flag key ((k, v) ∷ vals) old = if str_eq k key then truthy v else written_flag key vals old

abbrev pub memory : Odoo
memory = record {
  search = λ order ts ps. filter (λ q. all (meets q) ts) ps;
  create = λ id vals. record {
    id = id;
    active = true;
    is_company = truthy (get_val "is_company" vals);
    parent_id = ref_of (get_val "parent_id" vals);
    company_id = ref_of (get_val "company_id" vals);
    type = "contact";
    columns = vals;
  };
  has_field = λ s. true;
  is_relational = λ s. str_eq s "company_id";
  write = λ vals q. record q {
    company_id = written_id "company_id" vals q.company_id;
    is_company = written_flag "is_company" vals q.is_company;
    columns = set_vals vals q.columns;
  };
  escape_psql = λ s. s;
  country_from_external = λ s. ok (some 75);
  country_of_code = λ s. none;
  has_states = λ c. false;
  state_from_external = λ s. ok none;
  state_of_code = λ c s. none;
  language_from_external = λ s. ok none;
  pricelist_from_external = λ s. none;
  validate_integration_vat = λ n c. some true;
  email_normalize = λ s. none;
  phone_format = λ s c. none;
  integration_tag = ok 1;
}

all-Includes :
    (f : Term → Bool) (t : Term) (ts : List Term) → Includes t ts → all f ts ≡ true → f t ≡ true
all-Includes f t [] i h = absurd i
all-Includes f t (u ∷ ts) (inl e) h =
    let y : f u ≡ true = ground arith in subst (λ z. f z ≡ true) e y
all-Includes f t (u ∷ ts) (inr i) h = all-Includes f t ts i (ground arith)

found-meets :
    (t : Term) (ts : List Term) (ps : List Partner) (q : Partner)
    → Includes t ts
    → In q (filter (λ x. all (meets x) ts) ps)
    → meets q t ≡ true
found-meets t ts ps q i e =
    all-Includes (meets q) t ts i (In-filter (λ x. all (meets x) ts) q ps e).1

company-Belongs :
    (c : ℕ) (q : Partner) (k : Option ℕ)
    → any (is_company_value k) (ref c ∷ no ∷ []) ≡ true
    → (k ≡ none) ⊎ (k ≡ some c)
company-Belongs c q none h = inl refl
company-Belongs c q (some d) h = inr (ap some (ground arith))

flag-true : (b : Bool) → same_flag b true ≡ true → b ≡ true
flag-true true h = refl
flag-true false h = h

flag-false : (b : Bool) → any (λ v. same_flag b (truthy v)) (char "" ∷ no ∷ []) ≡ true → b ≡ false
flag-false true h = sym h
flag-false false h = refl

false-true : false ≡ true → ⊥
false-true h = ground arith

spared_id :
    (key : String) (vals : Vals) (i : Option ℕ) → Spares key vals → written_id key vals i ≡ i
spared_id key [] i h = refl
spared_id key ((k, v) ∷ vals) i h = ground (arith, h.0, spared_id key vals i h.1)

spared_flag :
    (key : String) (vals : Vals) (b : Bool) → Spares key vals → written_flag key vals b ≡ b
spared_flag key [] b h = refl
spared_flag key ((k, v) ∷ vals) b h = ground (arith, h.0, spared_flag key vals b h.1)

pub memory-Laws : Laws memory
memory-Laws = record {
  has_field-company_id = refl;
  is_relational-company_id = refl;
  search-company = λ order c ts ps q i e.
      company-Belongs c q q.company_id
        (found-meets (leaf "company_id" "in" (among (ref c ∷ no ∷ []))) ts ps q i e);
  search-is_company = λ order ts ps q i e.
      flag-true q.is_company (found-meets (leaf "is_company" "=" (one yes)) ts ps q i e);
  search-is_person = λ order ts ps q i e.
      flag-false q.is_company
        (found-meets (leaf "is_company" "in" (among (char "" ∷ no ∷ []))) ts ps q i e);
  search-never = λ order ps q e.
      absurd (false-true (In-filter (λ x. all (meets x) (leaf "id" "=" (one no) ∷ [])) q ps e).1);
  create-company_id = λ id vals. refl;
  create-is_company = λ id vals. refl;
  write-company_id = λ vals q. spared_id "company_id" vals q.company_id;
  write-is_company = λ vals q. spared_flag "is_company" vals q.is_company;
}
