-- ===== src/Console/Log.antt =====
-- os/src/console/log.rs: the log levels. Texts are lists of bytes; the setting `LOG` of the build is
-- an argument. The state is MAX_LEVEL_ORDINAL. The printing is left out.
use hj.Base.{
  ℕ, ◌+◌, ◌≤◌, ◌≡◌, ◌↔◌, refl, ap, Bool, true, false, Option, none, some, List, [], ◌∷◌, map, leb,
  ◌⊎◌, ◌==◌, ==→≡, ◌&&◌, if◌then◌else◌, inl, inr, arith, Bool-cases,
}
use hj.Build.{same_bytes}
use Prim.Native.String.{String}

pub data Level : Type 0 where
  none_level error warn info debug trace : Level

-- `level as usize`
unfoldable pub ordinal : Level → ℕ
ordinal none_level = 0
ordinal error = 1
ordinal warn = 2
ordinal info = 3
ordinal debug = 4
ordinal trace = 5

-- A letter of A to Z becomes small, as in `eq_ignore_ascii_case`.
unfoldable pub to_lower : ℕ → ℕ
to_lower c = if leb 65 c && leb c 90 then c + 32 else c

unfoldable pub eq_ignore_ascii_case : List ℕ → List ℕ → Bool
unfolding to_lower same_bytes
eq_ignore_ascii_case s t = same_bytes (map to_lower s) (map to_lower t)

-- "none", "error", "warn", "info", "debug" and "trace".
abbrev pub level_name : Level → List ℕ
level_name none_level = 110 ∷ 111 ∷ 110 ∷ 101 ∷ []
level_name error = 101 ∷ 114 ∷ 114 ∷ 111 ∷ 114 ∷ []
level_name warn = 119 ∷ 97 ∷ 114 ∷ 110 ∷ []
level_name info = 105 ∷ 110 ∷ 102 ∷ 111 ∷ []
level_name debug = 100 ∷ 101 ∷ 98 ∷ 117 ∷ 103 ∷ []
level_name trace = 116 ∷ 114 ∷ 97 ∷ 99 ∷ 101 ∷ []

-- The chain of tests; an unknown text is reported and means NONE.
unfoldable pub parse_level : List ℕ → Level
unfolding eq_ignore_ascii_case
parse_level env_setting =
    if eq_ignore_ascii_case env_setting (level_name none_level)
    then none_level
    else if eq_ignore_ascii_case env_setting (level_name error)
    then error
    else if eq_ignore_ascii_case env_setting (level_name warn)
    then warn
    else if eq_ignore_ascii_case env_setting (level_name info)
    then info
    else if eq_ignore_ascii_case env_setting (level_name debug)
    then debug
    else if eq_ignore_ascii_case env_setting (level_name trace)
    then trace
    else none_level

unfoldable pub get_env_log_level : Option (List ℕ) → Option Level
unfolding parse_level
get_env_log_level none = none
get_env_log_level (some env_setting) = some (parse_level env_setting)

-- What `init` stores.
unfoldable pub init : Option (List ℕ) → ℕ
unfolding ordinal get_env_log_level
init log = elim (get_env_log_level log) [ none ↦ ordinal none_level | some level ↦ ordinal level ]

unfoldable pub should_log : ℕ → Level → Bool
unfolding ordinal
should_log max_level_ordinal none_level = false
should_log max_level_ordinal level = leb (ordinal level) max_level_ordinal

unfoldable pub get_color_code : Level → ℕ
get_color_code info = 34
get_color_code warn = 93
get_color_code error = 31
get_color_code debug = 32
get_color_code trace = 90
get_color_code none_level = 0

unfoldable pub get_prefix : Level → String
get_prefix info = "[ INFO]"
get_prefix warn = "[ WARN]"
get_prefix error = "[ERROR]"
get_prefix debug = "[DEBUG]"
get_prefix trace = "[TRACE]"
get_prefix none_level = "[ NONE]"

same_bytes→≡ : (xs ys : List ℕ) → same_bytes xs ys ≡ true → xs ≡ ys
unfolding same_bytes
same_bytes→≡ [] [] e = refl
same_bytes→≡ [] (y ∷ ys) e = cc
same_bytes→≡ (x ∷ xs) [] e = cc
same_bytes→≡ (x ∷ xs) (y ∷ ys) e = elim (Bool-cases (x == y)) [
  | inl hit ↦ cons_eq (==→≡ x y hit) (same_bytes→≡ xs ys (rw hit at e))
  | inr miss ↦ absurd (false_not (rw miss at e))
]
  where
    cons_eq : {x y : ℕ} {xs ys : List ℕ} → x ≡ y → xs ≡ ys → ◌≡◌ {A = List ℕ} (x ∷ xs) (y ∷ ys)
    cons_eq p q = rw (p, q) refl

    false_not : ¬ (false ≡ true)
    false_not p = absurd cc

-- A text that passes a test is the name.
named :
    (env_setting : List ℕ) (level : Level)
    → eq_ignore_ascii_case env_setting (level_name level) ≡ true
    → map to_lower env_setting ≡ level_name level
unfolding eq_ignore_ascii_case to_lower
named env_setting none_level e = same_bytes→≡ _ _ e
named env_setting error e = same_bytes→≡ _ _ e
named env_setting warn e = same_bytes→≡ _ _ e
named env_setting info e = same_bytes→≡ _ _ e
named env_setting debug e = same_bytes→≡ _ _ e
named env_setting trace e = same_bytes→≡ _ _ e

parse_level-named :
    (env_setting : List ℕ)
    → (parse_level env_setting ≡ none_level)
      ⊎ (map to_lower env_setting ≡ level_name (parse_level env_setting))
unfolding parse_level
parse_level-named s = elim (Bool-cases (eq_ignore_ascii_case s (level_name none_level))) [
  | inl hit ↦ rw hit (inl refl)
  | inr miss0 ↦ elim (Bool-cases (eq_ignore_ascii_case s (level_name error))) [
    | inl hit ↦ rw (miss0, hit) (inr (named s error hit))
    | inr miss1 ↦ elim (Bool-cases (eq_ignore_ascii_case s (level_name warn))) [
      | inl hit ↦ rw (miss0, miss1, hit) (inr (named s warn hit))
      | inr miss2 ↦ elim (Bool-cases (eq_ignore_ascii_case s (level_name info))) [
        | inl hit ↦ rw (miss0, miss1, miss2, hit) (inr (named s info hit))
        | inr miss3 ↦ elim (Bool-cases (eq_ignore_ascii_case s (level_name debug))) [
          | inl hit ↦ rw (miss0, miss1, miss2, miss3, hit) (inr (named s debug hit))
          | inr miss4 ↦ elim (Bool-cases (eq_ignore_ascii_case s (level_name trace))) [
            | inl hit ↦ rw (miss0, miss1, miss2, miss3, miss4, hit) (inr (named s trace hit))
            | inr miss5 ↦ rw (miss0, miss1, miss2, miss3, miss4, miss5) (inl refl)
          ]
        ]
      ]
    ]
  ]
]

named-parse_level :
    (env_setting : List ℕ) (level : Level)
    → map to_lower env_setting ≡ level_name level
    → parse_level env_setting ≡ level
unfolding parse_level eq_ignore_ascii_case same_bytes to_lower
named-parse_level s none_level e = rw e refl
named-parse_level s error e = rw e refl
named-parse_level s warn e = rw e refl
named-parse_level s info e = rw e refl
named-parse_level s debug e = rw e refl
named-parse_level s trace e = rw e refl

should_log_iff :
    (n : ℕ) (level : Level)
    → (should_log n level ≡ true) ↔ ((1 ≤ ordinal level) × (ordinal level ≤ n))
unfolding should_log ordinal
should_log_iff n none_level = (λ e. cc, λ h. absurd (omega arith))
should_log_iff n error = (λ e. (omega arith, ground arith), λ h. ground arith)
should_log_iff n warn = (λ e. (omega arith, ground arith), λ h. ground arith)
should_log_iff n info = (λ e. (omega arith, ground arith), λ h. ground arith)
should_log_iff n debug = (λ e. (omega arith, ground arith), λ h. ground arith)
should_log_iff n trace = (λ e. (omega arith, ground arith), λ h. ground arith)

-- With `LOG` set to any text: a message is logged exactly when the text, in whatever case, is the
-- name of a level, and the message's level is not NONE and not above that one.
pub should_log-init :
    (env_setting : List ℕ) (level : Level)
    → (should_log (init (some env_setting)) level ≡ true) ↔ (
        (max_level : Level) × (map to_lower env_setting ≡ level_name max_level)
        × (1 ≤ ordinal level)
        × (ordinal level ≤ ordinal max_level))
unfolding init get_env_log_level ordinal
should_log-init env_setting level = (forth, back)
  where
    max_ordinal : ℕ
    max_ordinal = ordinal (parse_level env_setting)

    forth :
        should_log max_ordinal level ≡ true
        → (max_level : Level) × (map to_lower env_setting ≡ level_name max_level)
          × (1 ≤ ordinal level)
          × (ordinal level ≤ ordinal max_level)
    forth e =
        let (low, high) = (should_log_iff max_ordinal level).0 e in
        elim (parse_level-named env_setting) [
          | inl unknown ↦ absurd (omega (arith, ap ordinal unknown))
          | inr name ↦ (parse_level env_setting, name, low, high)
        ]

    back :
        (max_level : Level) × (map to_lower env_setting ≡ level_name max_level)
          × (1 ≤ ordinal level)
          × (ordinal level ≤ ordinal max_level)
        → should_log max_ordinal level ≡ true
    back (max_level, name, low, high) =
        (should_log_iff max_ordinal level).1
          (low, omega (arith, ap ordinal (named-parse_level env_setting max_level name)))
