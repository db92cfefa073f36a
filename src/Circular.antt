-- ===== src/Circular.antt =====
-- A circular buffer: storage, capacity, the index of the next free slot (`head`), that of the
-- oldest item (`tail`) and the number of items. Four structures of the kernel are such buffers:
-- FIFO_BUFFER (lib/buffer.c), kb_inbuf (kernel/keyboard.c), the input queue of a TTY
-- (kernel/tty.c) and QUEUE (kernel/proc.c). Each moves a pointer on by one and takes it back to
-- the start of the storage where it meets the end.
use bird_os.Prelude.{
  ℕ, zero, suc, ◌+◌, ◌-◌, ◌≤◌, ◌<◌, ◌≡◌, refl, ap, ap₂, ◌∙◌, ◌⊎◌, List, [], ◌∷◌, ◌++◌, arith, ◌==◌,
  if◌then◌else◌, length, set, get_or, length-set, get_or-set_self, get_or-set_ne,
}

-- `p++; if (p == buf + cap) p = buf;`
abbrev pub step_on : ℕ → ℕ → ℕ
step_on cap i = if i + 1 == cap then 0 else i + 1

pub record IsCircular {ℓ} {A : Type ℓ} (buf : List A) (cap head tail n : ℕ) : Type 0 where
  pub storage : cap ≤ length buf
  pub head_in : head < cap
  pub tail_in : tail < cap
  pub fits : n ≤ cap
  pub span : (tail + n ≡ head) ⊎ (tail + n ≡ head + cap)

module _ {ℓ} {A : Type ℓ} (d : A) (cap : ℕ) where
  -- the `n` items from index `t` on, oldest first
  abbrev pub window : List A → ℕ → ℕ → List A
  window buf t zero = []
  window buf t (suc n) = get_or buf t d ∷ window buf (step_on cap t) n

  pub length-window : (buf : List A) (t n : ℕ) → length (window buf t n) ≡ n
  length-window buf t zero = refl
  length-window buf t (suc n) = ap suc (length-window buf (step_on cap t) n)

  -- `window` matches on `suc`, the code tests the count
  pub window_of_pos :
      (buf : List A) (t n : ℕ)
      → 0 < n
      → window buf t n ≡ get_or buf t d ∷ window buf (step_on cap t) (n - 1)
  window_of_pos buf t zero h = absurd (omega arith)
  window_of_pos buf t (suc n) h = ap (λ k. window buf t (suc k)) (omega arith)

  -- Writing just past a window extends it by that item.
  pub window-set :
      (buf : List A) (x : A) (n t h : ℕ)
      → cap ≤ length buf
      → t < cap
      → n < cap
      → h < cap
      → (t + n ≡ h) ⊎ (t + n ≡ h + cap)
      → window (set buf h x) t (suc n) ≡ window buf t n ++ (x ∷ [])
  window-set buf x zero t h hs ht hn hh e =
      let e' : t ≡ h = omega arith in ground (arith, get_or-set_self buf h x d)
  window-set buf x (suc n) t h hs ht hn hh e =
      ap₂ ◌∷◌ (get_or-set_ne buf h t x d (omega arith))
        (window-set buf x n (step_on cap t) h hs (ground arith) (omega arith) hh (ground arith))

module _ {ℓ} {A : Type ℓ} {buf : List A} {cap head tail n : ℕ}
    (v : IsCircular buf cap head tail n) where
  pub put-IsCircular :
      (x : A) → n < cap → IsCircular (set buf head x) cap (step_on cap head) tail (n + 1)
  put-IsCircular x h = ground (arith, length-set buf head x)

  pub take-IsCircular : 0 < n → IsCircular buf cap head (step_on cap tail) (n - 1)
  take-IsCircular h = ground arith

  pub window-put :
      (d x : A)
      → n < cap
      → window d cap (set buf head x) tail (n + 1) ≡ window d cap buf tail n ++ (x ∷ [])
  window-put d x h =
      let e : n + 1 ≡ suc n = omega arith in
      ap (window d cap (set buf head x) tail) e
      ∙ window-set d cap buf x n tail head v.storage v.tail_in h v.head_in v.span
