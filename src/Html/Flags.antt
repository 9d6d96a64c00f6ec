-- ===== src/Html/Flags.antt =====
-- The four flags are independent bits. The flags are a byte, so each fact is checked at 256 values.
use swift_go.Prelude.{
  ℕ, ◌<◌, ◌≡◌, refl, ◌≢◌, Bool, true, false, ◌&&◌, arith, ◌==◌, if◌then◌else◌, ltb, passes_below,
  test_of_passes_below,
}
use swift_go.Html.{
  Html, empty_html, display_user_interface, java_script, set_display_user_interface,
  set_post_message_on_complete, set_use_home_node, set_java_script, set_bit, clear_bit, has_bit,
  post_message_on_complete, use_home_node, use_home_node_as_string, bool_string,
}

-- The pattern of `SetX(v)`: set the bit or clear it.
abbrev pub put_bit : ℕ → Bool → Html → Html
put_bit pos v h = if v then set_bit pos h else clear_bit pos h

abbrev with_flags : ℕ → Html
with_flags x = record empty_html { flags = x }

abbrev same : Bool → Bool → Bool
same true b = b
same false b = if b then false else true

same→≡ : (a b : Bool) → same a b ≡ true → a ≡ b
same→≡ a b h = ground arith

-- The test of one flag after another was put, and of the result being a byte.
abbrev bit_test : Bool → ℕ → ℕ → ℕ → Bool
bit_test v p q x =
    same (has_bit q (put_bit p v (with_flags x))) (if p == q then v else has_bit q (with_flags x))
    && ltb (put_bit p v (with_flags x)).flags 256

bit_table :
    (v : Bool)
    → passes_below (λ p. passes_below (λ q. passes_below (bit_test v p q) 256) 4) 4 ≡ true
unfolding passes_below set_bit clear_bit has_bit
bit_table true = refl
bit_table false = refl

bit_test-true : (v : Bool) (p q x : ℕ) → p < 4 → q < 4 → x < 256 → bit_test v p q x ≡ true
bit_test-true v p q x hp hq hx = test_of_passes_below (bit_test v p q) x 256 hx (
    test_of_passes_below (λ q. passes_below (bit_test v p q) 256) q 4 hq
      (test_of_passes_below (λ p. passes_below (λ q. passes_below (bit_test v p q) 256) 4) p 4 hp
        (bit_table v)))

module _ (p q : ℕ) (h : Html) (hp : p < 4) (hq : q < 4) (hx : h.flags < 256) where
  pub has_bit-put_bit : (v : Bool) → has_bit q (put_bit p v h) ≡ (if p == q then v else has_bit q h)
  unfolding has_bit set_bit clear_bit
  has_bit-put_bit true = ground (arith, bit_test-true true p q h.flags hp hq hx)
  has_bit-put_bit false = ground (arith, bit_test-true false p q h.flags hp hq hx)

  pub put_bit_small : (v : Bool) → (put_bit p v h).flags < 256
  unfolding has_bit set_bit clear_bit
  put_bit_small true = ground (arith, bit_test-true true p q h.flags hp hq hx)
  put_bit_small false = ground (arith, bit_test-true false p q h.flags hp hq hx)

-- What the four tests say: display, post message, home node, JavaScript.
abbrev pub flag_values : Html → Bool × Bool × Bool × Bool
flag_values h =
    (display_user_interface h, post_message_on_complete h, use_home_node h, java_script h)

module _ (v : Bool) (h : Html) (hx : h.flags < 256) where
  at : (p q : ℕ) → p < 4 → q < 4 → has_bit q (put_bit p v h) ≡ (if p == q then v else has_bit q h)
  at p q hp hq = has_bit-put_bit p q h hp hq hx v

  -- Where the flags are a byte, each setter gives its own flag the value and leaves the others.
  pub flag_values-set :
      (flag_values (set_display_user_interface v h)
        ≡ (v, post_message_on_complete h, use_home_node h, java_script h))
      × (flag_values (set_post_message_on_complete v h)
          ≡ (display_user_interface h, v, use_home_node h, java_script h))
      × (flag_values (set_use_home_node v h)
          ≡ (display_user_interface h, post_message_on_complete h, v, java_script h))
      × (flag_values (set_java_script v h)
          ≡ (display_user_interface h, post_message_on_complete h, use_home_node h, v))
  unfolding display_user_interface post_message_on_complete use_home_node java_script
      set_display_user_interface set_post_message_on_complete set_use_home_node set_java_script
  flag_values-set =
      (row 0 (omega arith), row 1 (omega arith), row 2 (omega arith), row 3 (omega arith))
    where
      row :
          (p : ℕ)
          → p < 4
          → flag_values (put_bit p v h) ≡ (
            if p == 0 then v else has_bit 0 h,
            if p == 1 then v else has_bit 1 h,
            if p == 2 then v else has_bit 2 h,
            if p == 3 then v else has_bit 3 h,
          )
      row p hp = cc (
        at p 0 hp (omega arith),
        at p 1 hp (omega arith),
        at p 2 hp (omega arith),
        at p 3 hp (omega arith),
      )

-- `UseHomeNodeAsString` names the wrong value whenever the home node flag differs from the post
-- message flag.
pub use_home_node_as_string_wrong :
    (h : Html)
    → use_home_node h ≢ post_message_on_complete h
    → use_home_node_as_string h ≢ bool_string (use_home_node h)
unfolding use_home_node_as_string
use_home_node_as_string_wrong h ne = ground arith
