-- ===== src/Base/Text.antt =====
-- Python texts: strip, split and lower, for the letters and the white space of ASCII.
use Prim.Native.String.{String, [] as text_nil, ◌∷◌ as text_cons, ◌++◌ as text_append}
use Prim.Native.Char.{Char, code}
use Prim.Native.Nat.{ℕ, zero, suc, ◌+◌, ◌-◌}
use mathlib.Core.Bool.{Bool, ◌&&◌, ◌||◌}
use mathlib.Core.List.{List, [], ◌∷◌}
use jean_fourche.Base.Tests.{◌==◌, leb, if◌then◌else◌}

abbrev is_space : Char → Bool
is_space c = (code c == 32) || (leb 9 (code c) && leb (code c) 13)

abbrev lower_code : ℕ → ℕ
lower_code n = if leb 65 n && leb n 90 then n + 32 else n

-- The codes of the characters of text.lower()
abbrev pub lower : String → List ℕ
lower text_nil = []
lower (text_cons c s) = lower_code (code c) ∷ lower s

abbrev char_or : Char → ℕ → String → Char
char_or c n text_nil = c
char_or c zero (text_cons d s) = d
char_or c (suc n) (text_cons d s) = char_or c n s

abbrev lower_char : Char → Char
lower_char c =
    if leb 65 (code c) && leb (code c) 90
    then char_or c (code c - 65) "abcdefghijklmnopqrstuvwxyz"
    else c

-- text.lower()
abbrev pub to_lower : String → String
to_lower text_nil = text_nil
to_lower (text_cons c s) = text_cons (lower_char c) (to_lower s)

abbrev pub codes : String → List ℕ
codes text_nil = []
codes (text_cons c s) = code c ∷ codes s

abbrev lstrip : String → String
lstrip text_nil = text_nil
lstrip (text_cons c s) = let rest = lstrip s in if is_space c then rest else text_cons c s

abbrev push_unless_space : Char → String → String
push_unless_space c text_nil = if is_space c then text_nil else text_cons c text_nil
push_unless_space c (text_cons d s) = text_cons c (text_cons d s)

abbrev rstrip : String → String
rstrip text_nil = text_nil
rstrip (text_cons c s) = push_unless_space c (rstrip s)

-- text.strip()
abbrev pub strip : String → String
strip s = rstrip (lstrip s)

-- A run of white space becomes one space.
abbrev squeeze : String → String
squeeze text_nil = text_nil
squeeze (text_cons c text_nil) = if is_space c then " " else text_cons c text_nil
squeeze (text_cons c (text_cons d s)) =
    let rest = squeeze (text_cons d s) in
    if is_space c then (if is_space d then rest else text_append " " rest) else text_cons c rest

-- ' '.join(text.split())
abbrev pub join_words : String → String
join_words s = strip (squeeze s)

-- text.replace(' ', '').replace('-', '')
abbrev pub drop_dashes : String → String
drop_dashes text_nil = text_nil
drop_dashes (text_cons c s) =
    let rest = drop_dashes s in if (code c == 32) || (code c == 45) then rest else text_cons c rest
