-- ===== src/Html/WhiteSpace.antt =====
-- htmlTemplates.go: `removeHTMLWhiteSpace`, over the characters of a template.
use swift_go.Prelude.{
  ℕ, ◌≡◌, refl, Bool, true, false, ◌&&◌, ◌||◌, not, Option, none, some, List, [], ◌∷◌, ◌==◌,
  if◌then◌else◌, All, ap, Bool-cases, inl, inr,
}

-- tab, line feed, carriage return
unfoldable pub is_control : ℕ → Bool
is_control c = c == 13 || c == 10 || c == 9

unfoldable pub is_space : ℕ → Bool
is_space c = c == 32

unfoldable pub after_space : Option ℕ → Bool
unfolding is_space
after_space none = false
after_space (some c) = is_space c

-- `before` is the character in front, written or not.
abbrev is_kept : Option ℕ → ℕ → Bool
is_kept before c = not (is_control c) && not (is_space c && after_space before)

unfoldable pub remove_from : Option ℕ → List ℕ → List ℕ
remove_from before [] = []
remove_from before (c ∷ h) =
    let rest = remove_from (some c) h in if is_kept before c then c ∷ rest else rest

unfoldable pub remove_html_white_space : List ℕ → List ℕ
unfolding remove_from
remove_html_white_space h = remove_from none h

-- the characters that are neither
unfoldable pub visible : List ℕ → List ℕ
visible [] = []
visible (c ∷ h) = let rest = visible h in if is_control c || is_space c then rest else c ∷ rest

plain_of_kept : (before : Option ℕ) (c : ℕ) → is_kept before c ≡ true → is_control c ≡ false
plain_of_kept before c e = elim (Bool-cases (is_control c)) [
  | inl control ↦ cc (rw control at e)
  | inr plain ↦ plain
]

remove_from-plain :
    (before : Option ℕ) (h : List ℕ) → All (λ c. is_control c ≡ false) (remove_from before h)
unfolding remove_from
remove_from-plain before [] = tt
remove_from-plain before (c ∷ h) =
    let rest = remove_from-plain (some c) h in
    elim (Bool-cases (is_kept before c)) [
      | inl kept ↦ rw kept (plain_of_kept before c kept, rest)
      | inr dropped ↦ rw dropped rest
    ]

visible-remove_from : (before : Option ℕ) (h : List ℕ) → visible (remove_from before h) ≡ visible h
unfolding remove_from visible
visible-remove_from before [] = refl
visible-remove_from before (c ∷ h) =
    let rest = visible-remove_from (some c) h in
    elim (Bool-cases (is_control c)) [
      | inl control ↦ rw control rest
      | inr plain ↦ elim (Bool-cases (is_space c)) [
        | inl space ↦ elim (Bool-cases (after_space before)) [
          | inl again ↦ rw (plain, space, again) rest
          | inr first ↦ rw (plain, space, first, plain, space) rest
        ]
        | inr other ↦ rw (plain, other, plain, other) (ap (◌∷◌ c) rest)
      ]
    ]

-- What is left of a template has no tab and no end of a line, and all characters but those and spaces
-- are left, in their order.
pub visible-remove_html_white_space :
    (h : List ℕ)
    → All (λ c. is_control c ≡ false) (remove_html_white_space h)
      × (visible (remove_html_white_space h) ≡ visible h)
unfolding remove_html_white_space
visible-remove_html_white_space h = (remove_from-plain none h, visible-remove_from none h)
