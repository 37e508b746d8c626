-- ===== src/Util.antt =====
-- src/util.cpp: the string helpers.
use lectern_server.Prelude.{
  ℕ, zero, suc, ◌+◌, ◌-◌, Bool, ◌&&◌, ◌||◌, Option, none, some, List, [], ◌∷◌, map, leb, ◌==◌,
  if◌then◌else◌, Str, str_eq, rfind, take, drop, length,
}

-- `std::isspace`, `std::isalnum` and `std::tolower` in the "C" locale.
unfoldable pub is_space : ℕ → Bool
is_space c = (leb 9 c && leb c 13) || c == 32

unfoldable pub is_alnum : ℕ → Bool
is_alnum c = (leb 48 c && leb c 57) || ((leb 65 c && leb c 90) || (leb 97 c && leb c 122))

pub lower : ℕ → ℕ
lower c = if leb 65 c && leb c 90 then c + 32 else c

-- The first loop of `fTrim` moves `begin`, the second one `end`.
unfoldable pub trim_left : Str → Str
trim_left [] = []
trim_left (c ∷ s) = let rest = trim_left s in if is_space c then rest else c ∷ s

abbrev pub cons_kept : ℕ → Str → Str
cons_kept c [] = if is_space c then [] else c ∷ []
cons_kept c (d ∷ s) = c ∷ d ∷ s

unfoldable pub trim_right : Str → Str
trim_right [] = []
trim_right (c ∷ s) = cons_kept c (trim_right s)

unfoldable pub trim : Str → Str
unfolding trim_left trim_right is_space
trim s = trim_right (trim_left s)

unfoldable pub to_lower : Str → Str
unfolding lower
to_lower s = map lower s

-- `s.size() >= prefix.size() && s.compare(0, prefix.size(), prefix) == 0`.
unfoldable pub starts_with : Str → Str → Bool
unfolding str_eq
starts_with s prefix = leb (length prefix) (length s) && str_eq (take (length prefix) s) prefix

unfoldable pub ends_with : Str → Str → Bool
unfolding str_eq
ends_with s suffix =
    leb (length suffix) (length s) && str_eq (drop (length s - length suffix) s) suffix

abbrev pub onto_head : ℕ → List Str → List Str
onto_head c [] = (c ∷ []) ∷ []
onto_head c (part ∷ parts) = (c ∷ part) ∷ parts

unfoldable pub split : Str → ℕ → List Str
split [] sep = [] ∷ []
split (c ∷ s) sep = if c == sep then [] ∷ split s sep else onto_head c (split s sep)

unfoldable pub basename_of : Str → Str
unfolding rfind
basename_of path = elim (rfind b'/' path) [ none ↦ path | some pos ↦ drop (pos + 1) path ]

-- A dot in front is a hidden file, not an extension.
abbrev extension_at : Str → Option ℕ → Str
extension_at base none = []
extension_at base (some zero) = []
extension_at base (some (suc pos)) = to_lower (drop (suc pos + 1) base)

unfoldable pub extension_of : Str → Str
unfolding basename_of to_lower rfind
extension_of name = let base = basename_of name in extension_at base (rfind b'.' base)
