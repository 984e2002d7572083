-- ===== src/Base/Strings.antt =====
-- Python's `str` as the list of its code points, with the methods that the services call.
-- `lower`, `upper`, `isalnum` and `isdigit` are those of the ASCII characters; `strip` is on all.
use Prim.Native.Nat.{ℕ, ◌+◌, ◌-◌}
use Prim.Native.Char.{code}
use Prim.Native.String.{String}
use mathlib.Core.Path.{◌≡◌, refl}
use mathlib.Core.Bool.{Bool, true, false, ◌&&◌, ◌||◌}
use mathlib.Core.List.{List, [], ◌∷◌, map, reverse}
use native.Mathlib.Omega.{arith}
use open_city_planner.Base.Tests.{leb, ◌==◌, if◌then◌else◌}

abbrev pub Text : Type 0
Text = List ℕ

-- the code points of a literal
abbrev pub codes : String → Text
codes String.[] = []
codes (String.◌∷◌ c s) = code c ∷ codes s

unfoldable pub text_eq : Text → Text → Bool
text_eq [] [] = true
text_eq (a ∷ s) (b ∷ t) = a == b && text_eq s t
text_eq _ _ = false

pub text_eq_refl : (s : Text) → text_eq s s ≡ true
unfolding text_eq
text_eq_refl [] = refl
text_eq_refl (a ∷ s) = ground (arith, text_eq_refl s)

pub text_eq_lem : (s t : Text) → text_eq s t ≡ true → s ≡ t
unfolding text_eq
text_eq_lem [] [] h = refl
text_eq_lem [] (b ∷ t) h = absurd (ground arith)
text_eq_lem (a ∷ s) [] h = absurd (ground arith)
text_eq_lem (a ∷ s) (b ∷ t) h =
    let rest : s ≡ t = text_eq_lem s t (ground arith) in
    let same : a ≡ b = ground arith in rw (same, rest) refl

-- the white space of Unicode beyond Latin-1
abbrev pub is_wide_space : ℕ → Bool
is_wide_space c =
    c == 5760
    || (leb 8192 c && leb c 8202
        || (c == 8232 || (c == 8233 || (c == 8239 || (c == 8287 || c == 12288)))))

-- `str.isspace` of one character, which `strip` and `split` go by
unfoldable pub is_space : ℕ → Bool
is_space c =
    leb 9 c && leb c 13 || (leb 28 c && leb c 32 || (c == 133 || (c == 160 || is_wide_space c)))

unfoldable pub is_digit : ℕ → Bool
is_digit c = leb b'0' c && leb c b'9'

unfoldable pub lower_char : ℕ → ℕ
lower_char c = if leb b'A' c && leb c b'Z' then c + 32 else c

unfoldable pub upper_char : ℕ → ℕ
upper_char c = if leb b'a' c && leb c b'z' then c - 32 else c

unfoldable pub lower : Text → Text
unfolding lower_char
lower s = map lower_char s

unfoldable pub drop_spaces : Text → Text
unfolding is_space
drop_spaces [] = []
drop_spaces (c ∷ s) = let rest = drop_spaces s in if is_space c then rest else c ∷ s

unfoldable pub strip : Text → Text
unfolding drop_spaces
strip s = reverse (drop_spaces (reverse (drop_spaces s)))

-- `all(c.isdigit() for c in s)`
unfoldable pub all_digits : Text → Bool
unfolding is_digit
all_digits [] = true
all_digits (c ∷ s) = is_digit c && all_digits s
