-- ===== src/Tcp/Ring/Access.antt =====
-- `RingBuffer::write` and `RingBuffer::read` in terms of absolute indices, both branches at once.
use native.Mathlib.Nat.{mod-add-mod, mod-eq_of_lt, mod-eq-sub-mod, mod-lt}
use native.Mathlib.Decide.{dec_lt}
use tns.Common.{
  take-all, ℕ, ◌+◌, ◌-◌, ◌%◌, ◌≤◌, ◌<◌, ◌≡◌, ◌⊎◌, inl, inr, refl, ap, sym, ◌∙◌, List, arith, length,
  get_or, take, drop, min, some, leb, Bool, true, false, leb→le, leb→lt, length-take, length-drop,
}
use tns.Tcp.Ring.{copy_to, write, write_wrapped, read, read_wrapped}
use tns.Tcp.Ring.Windows.{window, window-add, window-eq, slice-window}
use tns.Tcp.Ring.Copy.{
  length-copy_to, get_or-copy_to_out, get_or-copy_to_in, get_or-take, get_or-drop,
}

-- The index of `a + i`, for `i` below the capacity: before or after the wrap.
pub mod_near :
    (cap a i : ℕ)
    → i < cap
    → ((a % cap + i < cap) × ((a + i) % cap ≡ a % cap + i))
      ⊎ ((cap ≤ a % cap + i) × ((a + i) % cap + cap ≡ a % cap + i))
mod_near cap a i h = elim (dec_lt (a % cap + i) cap) [
  | yes p ↦ inl (p, omega (arith, mod-eq_of_lt p, mod-add-mod a cap i))
  | no p ↦ inr (
    omega arith,
    omega (
      arith,
      mod-add-mod a cap i,
      mod-lt a {m = cap} (omega arith),
      mod-eq-sub-mod {n = a % cap + i} {m = cap} (omega arith),
      mod-eq_of_lt {n = a % cap + i - cap} {m = cap}
          (omega (arith, mod-lt a {m = cap} (omega arith))),
    ),
  )
]

-- The index that is `k` after the wrap.
mod_wrapped :
    (cap a k : ℕ) → a % cap < cap → k < cap → (a + (cap - a % cap) + k) % cap ≡ (0 + k) % cap
mod_wrapped cap a k h l =
    let e : a % cap + (cap - a % cap + k) ≡ cap + k = omega arith in
    let f : a + (cap - a % cap) + k ≡ a + (cap - a % cap + k) = omega arith in
    let g : cap + k - cap ≡ 0 + k = omega arith in
    rw (f, ← mod-add-mod, e)
      (mod-eq-sub-mod {n = cap + k} {m = cap} (omega arith) ∙ ap (λ j. j % cap) g)

-- What a write of `n` bytes from the absolute index `at` on has done to the array.
pub record Wrote (cap : ℕ) (buf bytes : List ℕ) (at n : ℕ) (buf' : List ℕ) : Type 0 where
  pub size : length buf' ≡ cap
  pub new : (i : ℕ) → i < n → get_or buf' ((at + i) % cap) 0 ≡ get_or bytes i 0
  pub old :
      (i : ℕ) → n ≤ i → i < cap → get_or buf' ((at + i) % cap) 0 ≡ get_or buf ((at + i) % cap) 0

Wrote-straight :
    (cap : ℕ) (buf bytes : List ℕ) (at n : ℕ)
    → length buf ≡ cap
    → at % cap + n ≤ cap
    → n ≤ length bytes
    → Wrote cap buf bytes at n (copy_to buf (at % cap) (take n bytes))
Wrote-straight cap buf bytes at n size fits le = record {
  size = omega (arith, length-copy_to buf (at % cap) (take n bytes));
  new = λ i h. ground (
    arith,
    mod_near cap at i (omega arith),
    get_or-copy_to_in buf (at % cap) (take n bytes) i,
    get_or-take n bytes i,
    length-take n bytes,
  );
  old = λ i h k. ground (
    arith,
    mod_near cap at i k,
    get_or-copy_to_out buf (at % cap) (take n bytes) ((at + i) % cap),
    length-take n bytes,
  );
}

Wrote-wrapped :
    (cap : ℕ) (buf bytes : List ℕ) (at n n1 n2 : ℕ)
    → length buf ≡ cap
    → at % cap < cap
    → n1 ≡ cap - at % cap
    → n1 < length bytes
    → n2 ≤ at % cap
    → n2 ≤ length bytes - n1
    → n ≡ n1 + n2
    → Wrote cap buf bytes at n
        (copy_to (copy_to buf (at % cap) (take n1 bytes)) 0 (take n2 (drop n1 bytes)))
Wrote-wrapped cap buf bytes at n n1 n2 size lt e1 l1 l2 l3 e = record {
  size = omega (arith, length-copy_to low 0 rest, length-copy_to buf (at % cap) (take n1 bytes));
  new = λ i h. ground (
    arith,
    mod_near cap at i (omega arith),
    get_or-copy_to_in buf (at % cap) (take n1 bytes) i,
    get_or-copy_to_out low 0 rest ((at + i) % cap),
    get_or-copy_to_in low 0 rest (i - n1),
    get_or-take n1 bytes i,
    get_or-take n2 (drop n1 bytes) (i - n1),
    get_or-drop n1 bytes (i - n1),
    length-take n1 bytes,
    length-take n2 (drop n1 bytes),
    length-drop n1 bytes,
    length-copy_to buf (at % cap) (take n1 bytes),
  );
  old = λ i h k. ground (
    arith,
    mod_near cap at i k,
    get_or-copy_to_out low 0 rest ((at + i) % cap),
    get_or-copy_to_out buf (at % cap) (take n1 bytes) ((at + i) % cap),
    length-take n1 bytes,
    length-take n2 (drop n1 bytes),
    length-drop n1 bytes,
  );
}
  where
    low : List ℕ
    low = copy_to buf (at % cap) (take n1 bytes)

    rest : List ℕ
    rest = take n2 (drop n1 bytes)

-- `write` with `at < last` stores as many of the bytes as the range [at, last] holds, at the indices
-- of `at`, `at + 1`, …, and leaves every other byte of the array as it was.
pub write-Wrote :
    (cap : ℕ) (buf bytes : List ℕ) (at last : ℕ)
    → length buf ≡ cap
    → at < last
    → last < at + cap
    → let n = min (last + 1 - at) (length bytes) in
      (buf' : List ℕ) × (write cap buf bytes at last ≡ some (n, buf'))
      × Wrote cap buf bytes at n buf'
unfolding write write_wrapped
write-Wrote cap buf bytes at last size lt fits =
    go (mod_near cap at (last - at) (omega arith)) (leb (length bytes) (cap - at % cap)) refl
  where
    e : at + (last - at) ≡ last
    e = omega arith

    n : ℕ
    n = min (last + 1 - at) (length bytes)

    go :
        (((at % cap + (last - at) < cap) × ((at + (last - at)) % cap ≡ at % cap + (last - at)))
          ⊎ ((cap ≤ at % cap + (last - at))
              × ((at + (last - at)) % cap + cap ≡ at % cap + (last - at))))
        → (b : Bool) → leb (length bytes) (cap - at % cap) ≡ b
        → (buf' : List ℕ) × (write cap buf bytes at last ≡ some (n, buf'))
          × Wrote cap buf bytes at n buf'
    go (inl (p, q)) b w =
        let i : last % cap ≡ at % cap + (last - at) = rw e at q in
        (
          copy_to buf (at % cap) (take n bytes),
          ground (arith, i),
          Wrote-straight cap buf bytes at n size (omega arith) (omega arith),
        )
    go (inr (p, q)) true w =
        let i : last % cap + cap ≡ at % cap + (last - at) = rw e at q in
        (
          copy_to buf (at % cap) (take n bytes),
          ground (arith, i, w, take-all n bytes),
          Wrote-straight cap buf bytes at n size (omega (arith, i, leb→le _ _ w)) (omega arith),
        )
    go (inr (p, q)) false w =
        let i : last % cap + cap ≡ at % cap + (last - at) = rw e at q in
        let n1 = cap - at % cap in
        let n2 = min (last % cap + 1) (length bytes - n1) in
        (
          copy_to (copy_to buf (at % cap) (take n1 bytes)) 0 (take n2 (drop n1 bytes)),
          ground (arith, i, w),
          Wrote-wrapped cap buf bytes at n n1 n2 size (mod-lt at {m = cap} (omega arith)) refl
              (leb→lt _ _ w) (omega (arith, i)) (omega (arith, i)) (omega (arith, i, leb→lt _ _ w)),
        )

-- `read` returns the bytes at the indices of `at`, `at + 1`, …, as many as the range [at, last] and
-- the room allow.
pub read-window :
    (cap : ℕ) (buf : List ℕ) (room at last : ℕ)
    → length buf ≡ cap
    → at ≤ last
    → last < at + cap
    → let n = min (last + 1 - at) room in read cap buf room at last ≡ some (n, window cap buf at n)
unfolding read read_wrapped
read-window cap buf room at last size le fits =
    go (mod_near cap at (last - at) (omega arith)) (leb room (cap - at % cap)) refl
  where
    e : at + (last - at) ≡ last
    e = omega arith

    n : ℕ
    n = min (last + 1 - at) room

    -- A window that starts at the index of `at` is one that starts at `at`.
    shift : (k : ℕ) → window cap buf (at % cap) k ≡ window cap buf at k
    shift k = window-eq cap buf buf (at % cap) at k (λ i h. rw mod-add-mod)

    go :
        (((at % cap + (last - at) < cap) × ((at + (last - at)) % cap ≡ at % cap + (last - at)))
          ⊎ ((cap ≤ at % cap + (last - at))
              × ((at + (last - at)) % cap + cap ≡ at % cap + (last - at))))
        → (b : Bool) → leb room (cap - at % cap) ≡ b
        → read cap buf room at last ≡ some (n, window cap buf at n)
    go (inl (p, q)) b w =
        let i : last % cap ≡ at % cap + (last - at) = rw e at q in
        ground (arith, i, slice-window cap buf (at % cap) n, shift n)
    go (inr (p, q)) true w =
        let i : last % cap + cap ≡ at % cap + (last - at) = rw e at q in
        ground (arith, i, w, slice-window cap buf (at % cap) room, shift room)
    go (inr (p, q)) false w =
        let i : last % cap + cap ≡ at % cap + (last - at) = rw e at q in
        let n1 = cap - at % cap in
        let n2 = min (last % cap + 1) (room - n1) in
        let low : window cap buf 0 n2 ≡ window cap buf (at + n1) n2 =
          window-eq cap buf buf 0 (at + n1) n2 (λ k h.
            ap (λ j. get_or buf j 0)
              (sym (
                mod_wrapped cap at k (mod-lt at {m = cap} (omega arith))
                  (omega (arith, i, mod-lt at {m = cap} (omega arith)))))) in
        ground (
          arith,
          i,
          w,
          mod-lt at {m = cap} (omega arith),
          slice-window cap buf (at % cap) n1,
          shift n1,
          slice-window cap buf 0 n2,
          low,
          window-add cap buf at n1 n2,
        )
