-- ===== src/Server/LogTail.antt =====
-- pgzero.go, logTail: the last few KB of the server's log. The writer that the log goes on to is the caller's.
use pgzero.Base.{
  ℕ, zero, suc, ◌-◌, ◌*◌, ◌≤◌, ◌≡◌, refl, sym, ap, subst, ◌∙◌, ◌⊎◌, inl, inr, Bool, false, Option,
  none, some, List, [], ◌∷◌, ◌++◌, arith, ltb, if◌then◌else◌, Bool-cases, Option-cases, length,
  take, drop, length-append, length-drop, take-append-drop,
}
use mathlib.Core.List.{append_assoc, append-nil}

-- 8 << 10
abbrev pub log_tail_size : ℕ
log_tail_size = 8192

-- the kept bytes; w.Write, of a state of its own, answers a count and whether there is an error
pub record LogTail (W : Type 0) : Type 0 where
  pub w : Option (List ℕ → W → (ℕ × Bool) × W)
  pub buf : List ℕ

abbrev pub new_log : {W : Type 0} → Option (List ℕ → W → (ℕ × Bool) × W) → LogTail W
new_log w = record { w = w; buf = [] }

-- the last n of a list
abbrev pub last : {A : Type 0} → ℕ → List A → List A
last n xs = drop (length xs - n) xs

-- what Write does to the buffer
unfoldable pub keep : List ℕ → List ℕ → List ℕ
keep buf p =
    let b = buf ++ p in
    if ltb (2 * log_tail_size) (length b) then drop (length b - log_tail_size) b else b

unfoldable pub write : {W : Type 0} → List ℕ → LogTail W → W → (ℕ × Bool) × LogTail W × W
write p l v =
    let kept = record l { buf = keep l.buf p } in
    elim l.w [ none ↦ ((length p, false), kept, v) | some f ↦ let (r, u) = f p v in (r, kept, u) ]

unfoldable pub tail : {W : Type 0} → LogTail W → List ℕ
tail l =
    if ltb log_tail_size (length l.buf) then drop (length l.buf - log_tail_size) l.buf else l.buf

-- a log that is written piece by piece
unfoldable pub write_all : {W : Type 0} → List (List ℕ) → LogTail W → W → LogTail W × W
write_all [] l v = (l, v)
write_all (p ∷ ps) l v = let (r, k, u) = write p l v in write_all ps k u

abbrev pub concat : List (List ℕ) → List ℕ
concat [] = []
concat (p ∷ ps) = p ++ concat ps

-- The buffer is the end of what is written, and the whole of it or long enough.
record Keeps (all buf : List ℕ) : Type 0 where
  before : List ℕ
  split : all ≡ before ++ buf
  enough : (length before ≡ 0) ⊎ (log_tail_size ≤ length buf)
  bounded : length buf ≤ 2 * log_tail_size

drop_none : (n : ℕ) (xs : List ℕ) → n ≡ 0 → drop n xs ≡ xs
drop_none zero xs e = refl
drop_none (suc n) xs e = absurd (omega (arith, e))

drop-append : (xs ys : List ℕ) (n : ℕ) → length xs ≤ n → drop n (xs ++ ys) ≡ drop (n - length xs) ys
drop-append [] ys n h = ap (λ k. drop k ys) (omega arith)
drop-append (x ∷ xs) ys zero h = absurd (omega (arith, h))
drop-append (x ∷ xs) ys (suc n) h =
    drop-append xs ys n (omega (arith, h)) ∙ ap (λ k. drop k ys) (omega arith)

last-append :
    (n : ℕ) (xs ys : List ℕ) → (length xs ≡ 0) ⊎ (n ≤ length ys) → last n (xs ++ ys) ≡ last n ys
last-append n xs ys h =
    let e = length-append xs ys in
    drop-append xs ys (length (xs ++ ys) - n) (ground (arith, h, e))
    ∙ ap (λ k. drop k ys) (ground (arith, h, e))

Keeps-append : (all buf p : List ℕ) → Keeps all buf → Keeps (all ++ p) (keep buf p)
unfolding keep
Keeps-append all buf p k =
    let b = buf ++ p in
    let n = length b - log_tail_size in
    let there : all ++ p ≡ k.before ++ b = ap (λ t. t ++ p) k.split ∙ append_assoc k.before buf p in
    elim (Bool-cases (ltb (2 * log_tail_size) (length b))) [
      | inl e ↦ rw e (record {
        before = k.before ++ take n b;
        split =
            there
            ∙ ap (λ t. k.before ++ t) (sym (take-append-drop n b))
            ∙ sym (append_assoc k.before (take n b) (drop n b));
        enough = inr (ground (arith, e, length-drop n b));
        bounded = ground (arith, e, length-drop n b);
      })
      | inr e ↦ rw e (record {
        before = k.before;
        split = there;
        enough = ground (arith, k.enough, length-append buf p);
        bounded = ground (arith, e);
      })
    ]

tail-last : {W : Type 0} (l : LogTail W) → tail l ≡ last log_tail_size l.buf
unfolding tail
tail-last l = elim (Bool-cases (ltb log_tail_size (length l.buf))) [
  | inl e ↦ rw e refl
  | inr e ↦ rw e (sym (drop_none (length l.buf - log_tail_size) l.buf (ground (arith, e))))
]

write-buf : {W : Type 0} (p : List ℕ) (l : LogTail W) (v : W) → (write p l v).1.buf ≡ keep l.buf p
unfolding write
write-buf p l v = elim (Option-cases l.w) [ inl e ↦ rw e refl | inr (f, e) ↦ rw e refl ]

write_all-Keeps :
    {W : Type 0} (ps : List (List ℕ)) (all : List ℕ) (l : LogTail W) (v : W)
    → Keeps all l.buf
    → Keeps (all ++ concat ps) (write_all ps l v).0.buf
unfolding write_all
write_all-Keeps [] all l v k = subst (λ t. Keeps t l.buf) (sym (append-nil all)) k
write_all-Keeps (p ∷ ps) all l v k =
    let (r, m, u) = write p l v in
    subst (λ t. Keeps t (write_all ps m u).0.buf) (append_assoc all p (concat ps))
      (write_all-Keeps ps (all ++ p) m u
        (subst (Keeps (all ++ p)) (sym (write-buf p l v)) (Keeps-append all l.buf p k)))

-- For a log that starts empty and any writes, to any writer: tail is the last 8192 bytes of all that was
-- written (all of it when there is less), and no more than 16384 bytes are kept.
pub write_all-tail :
    {W : Type 0} (w : Option (List ℕ → W → (ℕ × Bool) × W)) (ps : List (List ℕ)) (v : W)
    → (tail (write_all ps (new_log w) v).0 ≡ last log_tail_size (concat ps))
      × (length (write_all ps (new_log w) v).0.buf ≤ 2 * log_tail_size)
write_all-tail w ps v =
    let l = new_log w in
    let k =
      write_all-Keeps ps [] l v
        (record { before = []; split = refl; enough = inl refl; bounded = omega arith }) in
    let m = (write_all ps l v).0 in
    (
      tail-last m
          ∙ sym (last-append log_tail_size k.before m.buf k.enough)
          ∙ ap (last log_tail_size) (sym k.split),
      k.bounded,
    )
