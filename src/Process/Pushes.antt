-- ===== src/Process/Pushes.antt =====
-- The steps of argument_push in src/userprog/process.c: what each leaves on the stack.
use csed.Common.{
  ℕ, zero, suc, ◌+◌, ◌-◌, ◌*◌, ◌%◌, ◌^◌, ◌≤◌, ◌<◌, ◌≡◌, refl, ◌==◌, List, [], ◌∷◌, ◌++◌, arith,
  get_or, length, length-append, Bool-cases, inl, inr, ap, sym, ◌∙◌, subst,
}
use csed.Process.Arguments.{
  UserStack, push, put_bytes, word_bytes, down, push_strings, word_align, push_addresses,
}

-- These bytes stand in memory from `a` on.
abbrev pub Holds : (ℕ → ℕ) → ℕ → List ℕ → Type 0
Holds byte a bs = (i : ℕ) → i < length bs → byte (a + i) ≡ get_or bs i 0

-- A stack that has grown down by `n` bytes; what was on it is still there.
pub record Grown (n : ℕ) (st st' : UserStack) : Type 0 where
  pub sp : st'.sp + n ≡ st.sp
  pub kept : (a : ℕ) → st.sp ≤ a → st'.byte a ≡ st.byte a

pub Grown-trans : (m n : ℕ) (a b c : UserStack) → Grown m a b → Grown n b c → Grown (m + n) a c
Grown-trans m n a b c g h = record {
  sp = omega (arith, g.sp, h.sp);
  kept = λ x l. h.kept x (omega (arith, g.sp)) ∙ g.kept x l;
}

pub Holds-Grown :
    (n : ℕ) (st st' : UserStack) (a : ℕ) (bs : List ℕ)
    → Grown n st st'
    → st.sp ≤ a
    → Holds st.byte a bs
    → Holds st'.byte a bs
Holds-Grown n st st' a bs g l h i b = g.kept (a + i) (omega arith) ∙ h i b

pub Holds-at : (byte : ℕ → ℕ) (a b : ℕ) (bs : List ℕ) → a ≡ b → Holds byte b bs → Holds byte a bs
Holds-at byte a b bs e h = subst (λ x. Holds byte x bs) (sym e) h

pub pushed :
    (bs : List ℕ) (st : UserStack)
    → length bs ≤ st.sp
    → st.sp < 2 ^ 32
    → Grown (length bs) st (push bs st) × Holds (push bs st).byte (push bs st).sp bs
unfolding push
pushed bs st h b = (record { sp = omega arith; kept = λ a l. above a l }, λ i l. inside i l)
  where
    above : (a : ℕ) → st.sp ≤ a → put_bytes (down st.sp (length bs)) bs st.byte a ≡ st.byte a
    above a l = ground arith

    inside :
        (i : ℕ)
        → i < length bs
        → put_bytes (down st.sp (length bs)) bs st.byte (down st.sp (length bs) + i) ≡ get_or bs i 0
    inside i l =
        let e : down st.sp (length bs) + i - down st.sp (length bs) ≡ i = omega arith in
        ground (arith, ap (λ n. get_or bs n 0) e)

-- Step 1.
abbrev pub strings_size : List (List ℕ) → ℕ
strings_size [] = 0
strings_size (arg ∷ argv) = length arg + 1 + strings_size argv

pub record Strings (argv : List (List ℕ)) (addresses : List ℕ) (st : UserStack) : Type 0 where
  pub size : length addresses ≡ length argv
  pub at :
      (i : ℕ)
      → i < length argv
      → (st.sp ≤ get_or addresses i 0)
        × Holds st.byte (get_or addresses i 0) (get_or argv i [] ++ 0 ∷ [])

pub push_strings_lem :
    (argv : List (List ℕ)) (st : UserStack)
    → strings_size argv ≤ st.sp
    → st.sp < 2 ^ 32
    → Grown (strings_size argv) st (push_strings argv st).1
      × Strings argv (push_strings argv st).0 (push_strings argv st).1
unfolding push_strings
push_strings_lem [] st h b = (
  record { sp = omega arith; kept = λ a l. refl },
  record { size = refl; at = λ i l. absurd (omega arith) },
)
push_strings_lem (arg ∷ argv) st h b =
    let (g, s) = push_strings_lem argv st (omega arith) b in
    let below = (push_strings argv st).1 in
    let len = length-append arg (0 ∷ []) in
    let (g', held) =
      pushed (arg ++ 0 ∷ []) below (omega (arith, g.sp, len)) (omega (arith, g.sp)) in
    (
      record {
        sp = omega (arith, g.sp, g'.sp, len);
        kept = λ a l. g'.kept a (omega (arith, g.sp)) ∙ g.kept a l;
      },
      record { size = ap suc s.size; at = λ i l. by_index i l g' held s },
    )
  where
    by_index :
        (i : ℕ)
        → i < suc (length argv)
        → Grown
            (length (arg ++ 0 ∷ []))
            (push_strings argv st).1
            (push (arg ++ 0 ∷ []) (push_strings argv st).1)
        → Holds
            (push (arg ++ 0 ∷ []) (push_strings argv st).1).byte
            (push (arg ++ 0 ∷ []) (push_strings argv st).1).sp
            (arg ++ 0 ∷ [])
        → Strings argv (push_strings argv st).0 (push_strings argv st).1
        → ((push (arg ++ 0 ∷ []) (push_strings argv st).1).sp
            ≤ get_or
                ((push (arg ++ 0 ∷ []) (push_strings argv st).1).sp ∷ (push_strings argv st).0)
                i
                0)
          × Holds
              (push (arg ++ 0 ∷ []) (push_strings argv st).1).byte
              (get_or
                ((push (arg ++ 0 ∷ []) (push_strings argv st).1).sp ∷ (push_strings argv st).0)
                i
                0)
              (get_or (arg ∷ argv) i [] ++ 0 ∷ [])
    by_index zero l g held s = (omega arith, held)
    by_index (suc i) l g held s =
        let (o, x) = s.at i (omega arith) in
        (
          omega (arith, g.sp, o),
          Holds-Grown (length (arg ++ 0 ∷ [])) (push_strings argv st).1
              (push (arg ++ 0 ∷ []) (push_strings argv st).1) (get_or (push_strings argv st).0 i 0)
              (get_or argv i [] ++ 0 ∷ []) g o x,
        )

-- Step 2.
pub word_align_lem :
    (rounds : ℕ) (st : UserStack)
    → st.sp % 4 < rounds
    → st.sp < 2 ^ 32
    → Grown (st.sp % 4) st (word_align rounds st)
unfolding word_align
word_align_lem zero st h b = absurd (omega arith)
word_align_lem (suc rounds) st h b = elim (Bool-cases (st.sp % 4 == 0)) [
  | inl e ↦ simp (e) (record { sp = ground arith; kept = λ a l. refl })
  | inr e ↦
      let (g, held) = pushed (0 ∷ []) st (ground arith) b in
      let r =
        word_align_lem rounds (push (0 ∷ []) st) (ground (arith, g.sp)) (omega (arith, g.sp)) in
      simp (e) (record {
        sp = ground (arith, g.sp, r.sp);
        kept = λ a l. r.kept a (omega (arith, g.sp)) ∙ g.kept a l;
      })
]

-- Step 3.
pub push_addresses_lem :
    (addresses : List ℕ) (st : UserStack)
    → 4 * (length addresses + 1) ≤ st.sp
    → st.sp < 2 ^ 32
    → Grown (4 * (length addresses + 1)) st (push_addresses addresses st)
      × ((i : ℕ)
          → i ≤ length addresses
          → Holds
              (push_addresses addresses st).byte
              ((push_addresses addresses st).sp + 4 * i)
              (word_bytes (get_or addresses i 0)))
unfolding push_addresses
push_addresses_lem [] st h b =
    let (g, held) = pushed (word_bytes 0) st h b in
    (
      g,
      λ i l.
          Holds-at (push (word_bytes 0) st).byte ((push (word_bytes 0) st).sp + 4 * i)
            (push (word_bytes 0) st).sp (word_bytes 0) (omega arith) held,
    )
push_addresses_lem (a ∷ addresses) st h b =
    let (g, s) = push_addresses_lem addresses st (omega arith) b in
    let (g', held) =
      pushed (word_bytes a) (push_addresses addresses st) (omega (arith, g.sp))
        (omega (arith, g.sp)) in
    (
      record {
        sp = omega (arith, g.sp, g'.sp);
        kept = λ x l. g'.kept x (omega (arith, g.sp)) ∙ g.kept x l;
      },
      λ i l. by_index i l g' held s,
    )
  where
    by_index :
        (i : ℕ)
        → i ≤ suc (length addresses)
        → Grown 4 (push_addresses addresses st) (push (word_bytes a) (push_addresses addresses st))
        → Holds
            (push (word_bytes a) (push_addresses addresses st)).byte
            (push (word_bytes a) (push_addresses addresses st)).sp
            (word_bytes a)
        → ((i : ℕ)
            → i ≤ length addresses
            → Holds
                (push_addresses addresses st).byte
                ((push_addresses addresses st).sp + 4 * i)
                (word_bytes (get_or addresses i 0)))
        → Holds
            (push (word_bytes a) (push_addresses addresses st)).byte
            ((push (word_bytes a) (push_addresses addresses st)).sp + 4 * i)
            (word_bytes (get_or (a ∷ addresses) i 0))
    by_index zero l g held s =
        Holds-at (push (word_bytes a) (push_addresses addresses st)).byte
          ((push (word_bytes a) (push_addresses addresses st)).sp + 4 * 0)
          (push (word_bytes a) (push_addresses addresses st)).sp (word_bytes a) (omega arith) held
    by_index (suc i) l g held s =
        Holds-at (push (word_bytes a) (push_addresses addresses st)).byte
          ((push (word_bytes a) (push_addresses addresses st)).sp + 4 * suc i)
          ((push_addresses addresses st).sp + 4 * i) (word_bytes (get_or addresses i 0))
          (omega (arith, g.sp))
          (Holds-Grown 4 (push_addresses addresses st)
            (push (word_bytes a) (push_addresses addresses st))
            ((push_addresses addresses st).sp + 4 * i) (word_bytes (get_or addresses i 0)) g
            (omega arith) (s i (omega arith)))
