-- ===== src/Settings/Dotenv.antt =====
-- What the .env loader of src/util.cpp reads back.
use lectern_server.Prelude.{
  ℕ, suc, ◌+◌, ◌≡◌, refl, sym, ap, ◌∙◌, Bool, true, false, not, ◌&&◌, ◌||◌, Bool-cases, inl, inr,
  Option, none, some, Option-cases, List, [], ◌∷◌, ◌++◌, append_assoc, arith, ◌==◌, Str,
  str_eq_refl, find, find-append, take, drop, take-append, length, length-append, is_empty, any,
}
use lectern_server.Util.{is_space, trim, trim_left, trim_right, split}
use lectern_server.Settings.{
  Environment, getenv, set_env, set_named, c_str, unquoted, first_is, last_is, load_pair, load_line,
  load_lines, load_dotenv,
}

-- A text that ends in a byte other than a space.
trim_right-kept : (x : Str) (d : ℕ) → is_space d ≡ false → trim_right (x ++ d ∷ []) ≡ x ++ d ∷ []
unfolding trim_right
trim_right-kept [] d h = rw h refl
trim_right-kept (c ∷ []) d h = rw (trim_right-kept [] d h) refl
trim_right-kept (c ∷ e ∷ x) d h = rw (trim_right-kept (e ∷ x) d h) refl

trim-kept :
    (c : ℕ) (x : Str) (d : ℕ)
    → is_space c ≡ false
    → is_space d ≡ false
    → trim (c ∷ (x ++ d ∷ [])) ≡ c ∷ (x ++ d ∷ [])
unfolding trim trim_left
trim-kept c x d h k = rw h (trim_right-kept (c ∷ x) d k)

trim_left-length :
    (s : Str) → (c : ℕ) → is_space c ≡ true → length (trim_left (c ∷ s)) ≡ length (trim_left s)
unfolding trim_left
trim_left-length s c h = rw h refl

last_is-last : (q : ℕ) (x : Str) → last_is q (x ++ q ∷ []) ≡ true
last_is-last q [] = ground arith
last_is-last q (c ∷ []) = ground arith
last_is-last q (c ∷ d ∷ x) = last_is-last q (d ∷ x)

quoted : Str → Str
quoted value = 34 ∷ (value ++ 34 ∷ [])

unquoted-quoted : (value : Str) → unquoted (quoted value) ≡ value
unfolding unquoted quoted
unquoted-quoted value =
    rw (last_is-last 34 (34 ∷ value))
      (ground (arith, length-append value (34 ∷ []), take-append value (34 ∷ [])))

drop_one : (x : Str) (c : ℕ) (y : Str) → drop (length x + 1) (x ++ c ∷ y) ≡ y
drop_one [] c y = refl
drop_one (d ∷ x) c y =
    let next : suc (length x) + 1 ≡ suc (length x + 1) = omega arith in
    ap (λ n. drop n (d ∷ (x ++ c ∷ y))) next ∙ drop_one x c y

-- A name as shells have it: at least one byte, no space, "=" or byte 0, and no "#" in front.
unfoldable pub is_name : Str → Bool
unfolding is_space
is_name name =
    not (is_empty name)
    && (not (first_is b'#' name)
        && (not (any (λ c. is_space c || c == b'=') name) && not (any (λ c. c == 0) name)))

trim_left-plain : (s : Str) → any (λ c. is_space c || c == b'=') s ≡ false → trim_left s ≡ s
unfolding trim_left
trim_left-plain [] h = refl
trim_left-plain (c ∷ s) h = ground arith

trim_right-plain : (s : Str) → any (λ c. is_space c || c == b'=') s ≡ false → trim_right s ≡ s
unfolding trim_right
trim_right-plain [] h = refl
trim_right-plain (c ∷ []) h = ground arith
trim_right-plain (c ∷ d ∷ s) h = rw (trim_right-plain (d ∷ s) (ground arith)) refl

find-plain : (s : Str) → any (λ c. is_space c || c == b'=') s ≡ false → find b'=' s ≡ none
unfolding find
find-plain [] h = refl
find-plain (c ∷ s) h = ground (arith, find-plain s)

trim-plain : (s : Str) → any (λ c. is_space c || c == b'=') s ≡ false → trim s ≡ s
unfolding trim
trim-plain s h = ap trim_right (trim_left-plain s h) ∙ trim_right-plain s h

-- The line of a name and a quoted value.
unfoldable pub line_of : Str → Str → Str
unfolding quoted
line_of name value = name ++ b'=' ∷ quoted value

load_pair-at :
    (trimmed : Str) (n : ℕ) (env : Environment) (name value : Str)
    → trim (take n trimmed) ≡ name
    → trim (drop (n + 1) trimmed) ≡ value
    → is_empty name ≡ false
    → load_pair trimmed env (some n) ≡ set_env name (unquoted value) env
unfolding load_pair
load_pair-at trimmed n env name value e f h = rw (e, f, h) refl

load_line-at :
    (line : Str) (n : ℕ) (env : Environment)
    → trim line ≡ line
    → is_empty line ≡ false
    → first_is b'#' line ≡ false
    → find b'=' line ≡ some n
    → load_line line env ≡ load_pair line env (some n)
unfolding load_line
load_line-at line n env e f g h = rw e (rw (f, g, h) refl)

-- A line whose name starts with the byte `c`.
trim-line_of :
    (c : ℕ) (s value : Str)
    → is_space c ≡ false
    → trim (line_of (c ∷ s) value) ≡ line_of (c ∷ s) value
unfolding line_of quoted is_space
trim-line_of c s value h =
    ap trim regroup ∙ trim-kept c (s ++ b'=' ∷ 34 ∷ value) 34 h refl ∙ sym regroup
  where
    regroup :
        (c ∷ s) ++ b'=' ∷ (34 ∷ (value ++ 34 ∷ [])) ≡ c ∷ ((s ++ b'=' ∷ 34 ∷ value) ++ 34 ∷ [])
    regroup = ap (◌∷◌ c) (sym (append_assoc s (b'=' ∷ 34 ∷ value) (34 ∷ [])))

load_line-line_of :
    (name value : Str) (env : Environment)
    → is_name name ≡ true
    → load_line (line_of name value) env ≡ set_env name value env
unfolding line_of quoted is_name
load_line-line_of [] value env h = cc
load_line-line_of (c ∷ s) value env h =
    load_line-at (line_of (c ∷ s) value) (length (c ∷ s)) env
      (trim-line_of c s value (ground arith)) refl (ground arith)
      (find-append b'=' (c ∷ s) (quoted value) (find-plain (c ∷ s) (ground arith)))
    ∙ load_pair-at (line_of (c ∷ s) value) (length (c ∷ s)) env (c ∷ s) (quoted value)
        (ap trim (take-append (c ∷ s) (b'=' ∷ quoted value)) ∙ trim-plain (c ∷ s) (ground arith))
        (ap trim (drop_one (c ∷ s) b'=' (quoted value)) ∙ trim-kept 34 value 34 refl refl) refl
    ∙ ap (λ v. set_env (c ∷ s) v env) (unquoted-quoted value)

-- Variables that are there keep their value.
getenv-append :
    (name : Str) (env rest : Environment) (v : Str)
    → getenv name env ≡ some v
    → getenv name (env ++ rest) ≡ some v
unfolding getenv
getenv-append name [] rest v e = cc
getenv-append name ((n, value) ∷ env) rest v e = ground (arith, getenv-append name env rest v)

getenv-last :
    (name value : Str) (env : Environment)
    → getenv name env ≡ none
    → getenv name (env ++ (name, value) ∷ []) ≡ some value
unfolding getenv
getenv-last name value [] e = rw (str_eq_refl name) refl
getenv-last name value ((n, v) ∷ env) e = ground (arith, getenv-last name value env)

c_str-whole : (s : Str) → any (λ c. c == 0) s ≡ false → c_str s ≡ s
unfolding c_str
c_str-whole [] h = refl
c_str-whole (c ∷ s) h = ground (arith, c_str-whole s)

c_str-name : (name : Str) → is_name name ≡ true → c_str name ≡ name
unfolding is_name
c_str-name name h = c_str-whole name (ground arith)

getenv-set_named :
    (asked name value : Str) (env : Environment) {v : Str}
    → getenv asked env ≡ some v
    → getenv asked (set_named name value env) ≡ some v
unfolding set_named
getenv-set_named asked [] value env e = e
getenv-set_named asked (c ∷ name) value env {v = v} e =
    elim (Option-cases (getenv (c ∷ name) env)) [
      | inl n ↦ rw n (getenv-append asked env ((c ∷ name, value) ∷ []) v e)
      | inr (old, f) ↦ rw f e
    ]

getenv-set_env :
    (asked name value : Str) (env : Environment) {v : Str}
    → getenv asked env ≡ some v
    → getenv asked (set_env name value env) ≡ some v
unfolding set_env
getenv-set_env asked name value env e = getenv-set_named asked (c_str name) (c_str value) env e

set_env-new :
    (name value : Str) (env : Environment)
    → is_name name ≡ true
    → getenv name env ≡ none
    → getenv name (set_env name value env) ≡ some (c_str value)
unfolding set_env set_named is_name
set_env-new [] value env h e = cc
set_env-new (c ∷ name) value env h e =
    rw (c_str-name (c ∷ name) h, e) (getenv-last (c ∷ name) (c_str value) env e)

getenv-load_pair :
    (asked trimmed : Str) (env : Environment) (equals : Option ℕ) {v : Str}
    → getenv asked env ≡ some v
    → getenv asked (load_pair trimmed env equals) ≡ some v
unfolding load_pair
getenv-load_pair asked trimmed env none e = e
getenv-load_pair asked trimmed env (some n) e =
    elim (Bool-cases (is_empty (trim (take n trimmed)))) [
      | inl nameless ↦ rw nameless e
      | inr named ↦ rw named (
          getenv-set_env asked (trim (take n trimmed)) (unquoted (trim (drop (n + 1) trimmed))) env
            e)
    ]

getenv-load_line :
    (asked line : Str) (env : Environment) {v : Str}
    → getenv asked env ≡ some v
    → getenv asked (load_line line env) ≡ some v
unfolding load_line
getenv-load_line asked line env e =
    elim (Bool-cases (is_empty (trim line) || first_is b'#' (trim line))) [
      | inl skipped ↦ rw skipped e
      | inr read ↦ rw read (getenv-load_pair asked (trim line) env (find b'=' (trim line)) e)
    ]

getenv-load_lines :
    (asked : Str) (lines : List Str) (env : Environment) {v : Str}
    → getenv asked env ≡ some v
    → getenv asked (load_lines lines env) ≡ some v
unfolding load_lines
getenv-load_lines asked [] env e = e
getenv-load_lines asked (line ∷ lines) env e =
    getenv-load_lines asked lines (load_line line env) (getenv-load_line asked line env e)

-- A variable of the environment keeps its value, whatever the file is.
pub load_dotenv-keeps :
    (asked : Str) (content : Option Str) (env : Environment) {v : Str}
    → getenv asked env ≡ some v
    → getenv asked (load_dotenv content env) ≡ some v
unfolding load_dotenv
load_dotenv-keeps asked none env e = e
load_dotenv-keeps asked (some content) env e = getenv-load_lines asked (split content 10) env e

split-line :
    (line rest : Str)
    → any (λ c. c == 10) line ≡ false
    → split (line ++ 10 ∷ rest) 10 ≡ line ∷ split rest 10
unfolding split
split-line [] rest h = refl
split-line (c ∷ line) rest h = ground (arith, split-line line rest)

any-append :
    (x y : Str) → any (λ c. c == 10) (x ++ y) ≡ (any (λ c. c == 10) x || any (λ c. c == 10) y)
any-append [] y = refl
any-append (c ∷ x) y = ground (arith, any-append x y)

name_is_one_line :
    (name : Str) → any (λ c. is_space c || c == b'=') name ≡ false → any (λ c. c == 10) name ≡ false
unfolding is_space
name_is_one_line [] h = refl
name_is_one_line (c ∷ name) h = ground (arith, name_is_one_line name)

line_of-one_line :
    (name value : Str)
    → is_name name ≡ true
    → any (λ c. c == 10) value ≡ false
    → any (λ c. c == 10) (line_of name value) ≡ false
unfolding line_of quoted is_name
line_of-one_line name value h k =
    any-append name (b'=' ∷ quoted value)
    ∙ ground (arith, name_is_one_line name (ground arith), any-append value (34 ∷ []))

-- A variable written on the first line of the file, its value in double quotes, is read back up to the
-- value's first byte 0: the value may be any text of one line, with spaces, quotes, "#" and "=" in
-- it, and the lines that follow do not change it. But a variable that was in the environment keeps its value.
pub load_dotenv-reads :
    (name value rest : Str) (env : Environment)
    → is_name name ≡ true
    → any (λ c. c == 10) value ≡ false
    → getenv name (load_dotenv (some (line_of name value ++ 10 ∷ rest)) env)
      ≡ (elim (getenv name env) [ none ↦ some (c_str value) | some old ↦ some old ])
unfolding load_dotenv
load_dotenv-reads name value rest env h k =
    ap (λ lines. getenv name (load_lines lines env)) (split-line (line_of name value) rest one_line)
    ∙ ap (λ e. getenv name (load_lines (split rest 10) e)) (load_line-line_of name value env h)
    ∙ first_wins (getenv name env) refl
  where
    one_line : any (λ c. c == 10) (line_of name value) ≡ false
    one_line = line_of-one_line name value h k

    first_wins :
        (o : Option Str)
        → getenv name env ≡ o
        → getenv name (load_lines (split rest 10) (set_env name value env))
          ≡ (elim o [ none ↦ some (c_str value) | some old ↦ some old ])
    first_wins (some old) e =
        getenv-load_lines name (split rest 10) _ (getenv-set_env name name value env e)
    first_wins none e = getenv-load_lines name (split rest 10) _ (set_env-new name value env h e)
