-- ===== src/Tcp/Ring/Contents.antt =====
-- What a write leaves in the windows of the array: the bytes written, and the older bytes.
use native.Mathlib.Nat.{mod-eq-sub-mod}
use tns.Common.{
  ℕ, zero, suc, ◌+◌, ◌-◌, ◌%◌, ◌≤◌, ◌<◌, ◌≡◌, refl, ap, ap₂, ◌∙◌, List, [], ◌∷◌, arith, length,
  get_or, take, min, some, ◌++◌,
}
use tns.Tcp.Ring.{write, read}
use tns.Common.{take-all}
use tns.Tcp.Ring.Windows.{window, window-eq, window-add}
use tns.Tcp.Ring.Access.{Wrote, write-Wrote, read-window}

window-take :
    (cap : ℕ) (buf bytes : List ℕ) (at n : ℕ)
    → n ≤ length bytes
    → ((i : ℕ) → i < n → get_or buf ((at + i) % cap) 0 ≡ get_or bytes i 0)
    → window cap buf at n ≡ take n bytes
window-take cap buf bytes at zero le h = refl
window-take cap buf [] at (suc n) le h = absurd (omega arith)
window-take cap buf (x ∷ bytes) at (suc n) le h =
    ap₂ ◌∷◌ (ground (arith, h 0))
      (window-take cap buf bytes (at + 1) n (omega arith) (λ i k. ground (arith, h (suc i))))

-- The bytes written stand in the window from `at` on.
pub window-Wrote :
    (cap : ℕ) (buf bytes : List ℕ) (at n : ℕ) (buf' : List ℕ)
    → n ≤ length bytes
    → Wrote cap buf bytes at n buf'
    → window cap buf' at n ≡ take n bytes
window-Wrote cap buf bytes at n buf' le w = window-take cap buf' bytes at n le w.new

index_before : (cap at j : ℕ) → j < at → at ≤ j + cap → (at + (j + cap - at)) % cap ≡ j % cap
index_before cap at j h k =
    let e : at + (j + cap - at) ≡ j + cap = omega arith in
    let f : j + cap - cap ≡ j = omega arith in
    rw e (mod-eq-sub-mod {n = j + cap} {m = cap} (omega arith) ∙ ap (λ i. i % cap) f)

-- A window in front of the written one keeps its bytes, if the two lie within one capacity.
pub window-Wrote_before :
    (cap : ℕ) (buf bytes : List ℕ) (at n : ℕ) (buf' : List ℕ) (s m : ℕ)
    → s + m ≤ at
    → at + n ≤ s + cap
    → Wrote cap buf bytes at n buf'
    → window cap buf' s m ≡ window cap buf s m
window-Wrote_before cap buf bytes at n buf' s m h k w = window-eq cap buf' buf s s m λ j l.
    let e = index_before cap at (s + j) (omega arith) (omega arith) in
    let old = w.old (s + j + cap - at) (omega arith) (omega arith) in rw e at old

-- A range written and then read back, with room for all of it, gives the bytes that were written.
pub read-write :
    (cap : ℕ) (buf bytes : List ℕ) (at last room : ℕ)
    → length buf ≡ cap
    → at < last
    → last < at + cap
    → length bytes ≤ last + 1 - at
    → length bytes ≤ room
    → 0 < length bytes
    → (buf' : List ℕ) × (write cap buf bytes at last ≡ some (length bytes, buf'))
      × (read cap buf' room at (at + length bytes - 1) ≡ some (length bytes, bytes))
read-write cap buf bytes at last room size lt fits le enough some_bytes =
    let (buf', e, w) = write-Wrote cap buf bytes at last size lt fits in
    let n : min (last + 1 - at) (length bytes) ≡ length bytes = omega arith in
    let end = at + length bytes - 1 in
    let m : min (end + 1 - at) room ≡ length bytes = omega arith in
    let w' : Wrote cap buf bytes at (length bytes) buf' = rw n at w in
    let r = read-window cap buf' room at end w.size (omega arith) (omega arith) in
    (
      buf',
      rw n at e,
      (rw m at r)
          ∙ ap (λ l. some (length bytes, l))
              (window-Wrote cap buf bytes at (length bytes) buf' (omega arith) w'
                ∙ take-all (length bytes) bytes (omega arith)),
    )

-- Appending to the window in front: what a queue of bytes sees of a write.
pub window-Wrote_append :
    (cap : ℕ) (buf bytes : List ℕ) (at n : ℕ) (buf' : List ℕ) (s m : ℕ)
    → s + m ≡ at
    → at + n ≤ s + cap
    → n ≤ length bytes
    → Wrote cap buf bytes at n buf'
    → window cap buf' s (m + n) ≡ window cap buf s m ++ take n bytes
window-Wrote_append cap buf bytes at n buf' s m e k le w =
    window-add cap buf' s m n
    ∙ ap₂ ◌++◌ (window-Wrote_before cap buf bytes at n buf' s m (omega arith) k w)
        (rw e (window-Wrote cap buf bytes at n buf' le w))
