-- ===== src/BytesPool/Sizes.antt =====
-- The capacities of the buffers that the cache keeps and gives out.
use goapp.Base.{
  ℕ, ◌≤◌, Option, none, some, ltb, All, All-get_elem?, All-erase_idx, get_elem?, ◌≡◌, refl, sym,
  arith, if_cases,
}
use goapp.BytesPool.{Buffer, BytesPool, get_buf, put_buf, pool_take, taken}

-- Each cached buffer has a capacity from the configured size up to `max`.
abbrev pub InBounds : ℕ → BytesPool → Type 0
InBounds max p = All (λ b. (p.pooled_size ≤ b.cap) × (b.cap ≤ max)) p.cached

abbrev pub Fits : ℕ → Buffer × BytesPool → ℕ → Type 0
Fits max r size = (size ≤ r.0.cap) × (r.0.cap ≤ max) × InBounds max r.1 × (r.1.pooled_size ≡ size)

taken-Fits :
    (max i : ℕ) (o : Option Buffer) (p : BytesPool)
    → p.pooled_size ≤ max
    → InBounds max p
    → o ≡ get_elem? p.cached i
    → Fits max (taken i o p) p.pooled_size
unfolding taken
taken-Fits max i none p h b e = (omega arith, h, b, refl)
taken-Fits max i (some x) p h b e =
    let (l, u) = All-get_elem? _ p.cached i b (sym e) in (l, u, All-erase_idx _ p.cached i b, refl)

pub get_buf-Fits :
    (max : ℕ) (pick : Option ℕ) (p : BytesPool)
    → p.pooled_size ≤ max
    → InBounds max p
    → Fits max (get_buf pick p) p.pooled_size
unfolding get_buf pool_take
get_buf-Fits max none p h b = (omega arith, h, b, refl)
get_buf-Fits max (some i) p h b = taken-Fits max i (get_elem? p.cached i) _ h b refl

pub put_buf-InBounds :
    (max : ℕ) (b : Buffer) (p : BytesPool)
    → b.cap ≤ max
    → InBounds max p
    → InBounds max (put_buf b p) × ((put_buf b p).pooled_size ≡ p.pooled_size)
unfolding put_buf
put_buf-InBounds max b p h i =
    if_cases (λ q. InBounds max q × (q.pooled_size ≡ p.pooled_size)) (ltb b.cap p.pooled_size) _ _
      (λ _. (i, refl)) (λ n. ((ground arith, i), refl))
