-- ===== src/Tcp/Ring.antt =====
-- lib/include/tcp/buffers.hpp, `RingBuffer<std::byte, N>`: `cap` is N, and the array is a list of
-- that length. Indices are `size_t`, far below 2 ^ 64. A byte is only moved, never computed with.
pub mod Copy
pub mod Access
pub mod Windows
pub mod Contents
use tns.Common.{
  ℕ, ◌+◌, ◌-◌, ◌%◌, min, Option, none, some, List, [], ◌∷◌, ltb, leb, if◌then◌else◌, length, set,
  take, drop, ◌++◌,
}

-- `idx`
abbrev pub idx : ℕ → ℕ → ℕ
idx cap seq = seq % cap

-- `std::copy(xs.begin(), xs.end(), buf.begin() + i)`
unfoldable pub copy_to : List ℕ → ℕ → List ℕ → List ℕ
copy_to buf i [] = buf
copy_to buf i (x ∷ xs) = copy_to (set buf i x) (i + 1) xs

-- The bytes of `buf[i, i + n)`.
abbrev pub slice : List ℕ → ℕ → ℕ → List ℕ
slice buf i n = take n (drop i buf)

-- The copy in two parts, the array wrapping round between them.
unfoldable pub write_wrapped : ℕ → List ℕ → List ℕ → ℕ → ℕ → ℕ × List ℕ
write_wrapped cap buf bytes at_idx last_idx =
    let n1 = cap - at_idx in
    let n2 = min (last_idx + 1) (length bytes - n1) in
    if leb (length bytes) n1
    then (length bytes, copy_to buf at_idx bytes)
    else (n1 + n2, copy_to (copy_to buf at_idx (take n1 bytes)) 0 (take n2 (drop n1 bytes)))

-- `write`: the number of bytes written and the array; `none` where the assertion fails.
unfoldable pub write : ℕ → List ℕ → List ℕ → ℕ → ℕ → Option (ℕ × List ℕ)
unfolding write_wrapped
write cap buf bytes at last =
    let at_idx = idx cap at in
    let last_idx = idx cap last in
    let n = min (last_idx + 1 - at_idx) (length bytes) in
    if leb last at
    then some (0, buf)
    else if leb cap (last - at)
    then none
    else if leb at_idx last_idx
    then some (n, copy_to buf at_idx (take n bytes))
    else some (write_wrapped cap buf bytes at_idx last_idx)

unfoldable pub read_wrapped : ℕ → List ℕ → ℕ → ℕ → ℕ → ℕ × List ℕ
read_wrapped cap buf room at_idx last_idx =
    let n1 = cap - at_idx in
    let n2 = min (last_idx + 1) (room - n1) in
    if leb room n1
    then (room, slice buf at_idx room)
    else (n1 + n2, slice buf at_idx n1 ++ slice buf 0 n2)

-- `read` into a buffer with room for `room` bytes: the number of bytes read, and those bytes.
unfoldable pub read : ℕ → List ℕ → ℕ → ℕ → ℕ → Option (ℕ × List ℕ)
unfolding read_wrapped
read cap buf room at last =
    let at_idx = idx cap at in
    let last_idx = idx cap last in
    let n = min (last_idx + 1 - at_idx) room in
    if ltb last at
    then some (0, [])
    else if leb cap (last - at)
    then none
    else if leb at_idx last_idx
    then some (n, slice buf at_idx n)
    else some (read_wrapped cap buf room at_idx last_idx)
