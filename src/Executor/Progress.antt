-- ===== src/Executor/Progress.antt =====
-- node/executor.py: the progress that is sent is the output.
use clique.Prelude.{
  ℕ, zero, suc, ◌+◌, ◌*◌, ◌≤◌, ◌<◌, ◌≡◌, refl, sym, ap, ◌∙◌, List, [], ◌∷◌, ◌++◌, arith, length,
  take, drop, length-append, length-drop, take-append-drop, Bool-cases, inl, inr, subst,
}
use mathlib.Core.List.{append_assoc, append-nil}
use clique.Types.{Text}
use clique.Texts.Laws.{length-take}
use clique.Executor.{
  socket, Slice, ws_chunk, chunks, chunk_count, send, is_due, stream, join_deltas,
  collect_streaming,
}

abbrev pub texts : List Slice → Text
texts [] = []
texts (s ∷ ss) = s.text ++ texts ss

-- The slices follow each other without a gap from the offset on: each begins where the one before it
-- ends, and none is longer than a chunk.
abbrev pub Follows : ℕ → List Slice → Type 0
Follows offset [] = Unit
Follows offset (s ∷ ss) =
    (s.offset ≡ offset) × ((length s.text ≤ ws_chunk) × Follows (offset + length s.text) ss)

texts-append : (xs ys : List Slice) → texts (xs ++ ys) ≡ texts xs ++ texts ys
texts-append [] ys = refl
texts-append (x ∷ xs) ys = rw (texts-append xs ys) (sym (append_assoc x.text (texts xs) (texts ys)))

Follows-append :
    (offset : ℕ) (xs ys : List Slice)
    → Follows offset xs
    → Follows (offset + length (texts xs)) ys
    → Follows offset (xs ++ ys)
Follows-append offset [] ys h k = rw (← add_zero offset) k
  where
    add_zero : (n : ℕ) → n + 0 ≡ n
    add_zero n = omega arith
Follows-append offset (x ∷ xs) ys (e, (b, h)) k =
    let size = length-append x.text (texts xs) in
    (e, (b, Follows-append (offset + length x.text) xs ys h (moved size k)))
  where
    sum :
        length (x.text ++ texts xs) ≡ length x.text + length (texts xs)
        → offset + length (x.text ++ texts xs) ≡ offset + length x.text + length (texts xs)
    sum e = omega (arith, e)

    moved :
        length (x.text ++ texts xs) ≡ length x.text + length (texts xs)
        → Follows (offset + length (x.text ++ texts xs)) ys
        → Follows (offset + length x.text + length (texts xs)) ys
    moved e k = subst (λ n. Follows n ys) (sum e) k

chunks-texts : (n offset : ℕ) (t : Text) → length t ≤ n * ws_chunk → texts (chunks n offset t) ≡ t
unfolding chunks
chunks-texts zero offset [] h = refl
chunks-texts zero offset (c ∷ t) h = absurd (omega arith)
chunks-texts (suc n) offset t h =
    let size = length-drop ws_chunk t in
    rw (chunks-texts n (offset + ws_chunk) (drop ws_chunk t) (omega (arith, size)))
      (take-append-drop ws_chunk t)

chunks-Follows :
    (n offset : ℕ) (t : Text)
    → length t ≤ n * ws_chunk
    → n * ws_chunk < length t + ws_chunk
    → Follows offset (chunks n offset t)
unfolding chunks
chunks-Follows zero offset t h k = tt
chunks-Follows (suc zero) offset t h k = (refl, (omega (arith, length-take ws_chunk t), tt))
chunks-Follows (suc (suc n)) offset t h k =
    let size = length-take ws_chunk t in
    let left = length-drop ws_chunk t in
    let full : length (take ws_chunk t) ≡ ws_chunk = omega (arith, size) in
    (
      refl,
      (
        omega (arith, size),
        rw full (
            chunks-Follows (suc n) (offset + ws_chunk) (drop ws_chunk t) (omega (arith, left))
              (omega (arith, left))),
      ),
    )

send-socket :
    (offset : ℕ) (t : Text)
    → (texts (send socket offset t) ≡ t) × Follows offset (send socket offset t)
unfolding send
send-socket offset [] = (refl, tt)
send-socket offset (c ∷ t) = (
  chunks-texts (chunk_count (c ∷ t)) offset (c ∷ t) (omega arith),
  chunks-Follows (chunk_count (c ∷ t)) offset (c ∷ t) (omega arith) (omega arith),
)

stream-socket :
    (buf : Text) (offset last : ℕ) (deltas : List (Text × ℕ))
    → (texts (stream socket buf offset last deltas) ≡ buf ++ join_deltas deltas)
      × Follows offset (stream socket buf offset last deltas)
unfolding stream
stream-socket buf offset last [] =
    let (same, follows) = send-socket offset buf in (same ∙ sym (append-nil buf), follows)
stream-socket buf offset last ((delta, now) ∷ rest) =
    let more = buf ++ delta in
    elim (Bool-cases (is_due more now last)) [
      | inl due ↦
          let (same, follows) = send-socket offset more in
          let (same', follows') = stream-socket [] (offset + length more) now rest in
          rw due (
            texts-append (send socket offset more) _
                ∙ (ap (λ u. u ++ texts (stream socket [] (offset + length more) now rest)) same
                    ∙ (ap (λ u. more ++ u) same' ∙ append_assoc buf delta (join_deltas rest))),
            Follows-append offset (send socket offset more)
                (stream socket [] (offset + length more) now rest) follows
                (subst
                  (λ u.
                    Follows (offset + length u) (stream socket [] (offset + length more) now rest))
                  (sym same) follows'),
          )
      | inr wait ↦
          let (same, follows) = stream-socket more offset last rest in
          rw wait (same ∙ append_assoc buf delta (join_deltas rest), follows)
    ]

-- What goes out over the web socket is the framing and then exactly the text that is returned, in
-- slices that follow each other from offset 0 without a gap or an overlap, none longer than a chunk.
pub collect_streaming-Follows :
    (prefix : Text) (start : ℕ) (deltas : List (Text × ℕ))
    → (texts (collect_streaming socket prefix start deltas).1
        ≡ prefix ++ (collect_streaming socket prefix start deltas).0)
      × Follows 0 (collect_streaming socket prefix start deltas).1
unfolding collect_streaming
collect_streaming-Follows prefix start deltas = stream-socket prefix 0 start deltas
