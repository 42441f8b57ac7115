-- ===== src/Instancia/Memoria/Copias.antt =====
-- Lemmas on the copies of bytes of Memoria: they end where they are in bounds, and what is written
-- is read back.
use tp_re_distinto_so.Base.{
  ℕ, ◌+◌, ◌*◌, ◌≤◌, ◌<◌, ◌≡◌, List, ◌∷◌, ◌++◌, done, le→leb, length, take, drop, arith,
  length-append, length-take, length-drop, get_elem?-length,
}
use tp_re_distinto_so.Instancia.Memoria.{read_bytes, write_bytes, at}

pub read_bytes-total :
    (buffer : List ℕ) (p n : ℕ)
    → p + n ≤ length buffer
    → (bs : List ℕ) × (read_bytes buffer p n ≡ done bs) × (length bs ≡ n)
unfolding read_bytes
read_bytes-total buffer p n h = (
  take n (drop p buffer),
  rw (le→leb (p + n) (length buffer) h),
  omega (arith, length-take n (drop p buffer), length-drop p buffer),
)

pub write_bytes-total :
    (buffer : List ℕ) (p : ℕ) (bs : List ℕ)
    → p + length bs ≤ length buffer
    → (m : List ℕ) × (write_bytes buffer p bs ≡ done m) × (length m ≡ length buffer)
unfolding write_bytes
write_bytes-total buffer p bs h = (
  take p buffer ++ (bs ++ drop (p + length bs) buffer),
  rw (le→leb (p + length bs) (length buffer) h),
  omega (
    arith,
    length-append (take p buffer) (bs ++ drop (p + length bs) buffer),
    length-append bs (drop (p + length bs) buffer),
    length-take p buffer,
    length-drop (p + length bs) buffer,
  ),
)

pub at-length {ℓ} :
    {A : Type ℓ} (xs : List A) (y : A) (ys : List A) → at (xs ++ y ∷ ys) (length xs) ≡ done y
unfolding at
at-length xs y ys = rw (get_elem?-length xs y ys, at)

-- A page of an array of n pages lies in it.
pub page-le : (x n t s : ℕ) → x < n → s ≤ t → x * t + s ≤ n * t
page-le x n t s h k = grind arith
