-- ===== src/Live/History.antt =====
-- scheduler/workspace.py: the versions and sequence numbers that `apply_patch` records, and which
-- entries a rebase runs over.
use clique.Prelude.{
  ℕ, zero, suc, String, ◌+◌, ◌-◌, ◌≤◌, ◌<◌, ◌≡◌, refl, ap, subst, false, List, [], ◌∷◌, ◌++◌, arith,
  length, drop, ltb, Bool-cases, inl, inr, length-drop,
}
use clique.Types.{Text}
use clique.Live.Lines.{Op}
use clique.Live.Rebase.{Entry, newer, over_entries, rebase_ops}
use clique.Live.{FileState, history_max, trim, patched}

-- The entries have the versions after `start`, one by one, up to `version`.
abbrev pub Numbered : ℕ → List Entry → ℕ → Type 0
Numbered start [] version = start ≡ version
Numbered start (e ∷ es) version = (e.version ≡ suc start) × Numbered (suc start) es version

-- The entries have sequence numbers above `low`, rising, none above `high`.
abbrev pub Rising : ℕ → List Entry → ℕ → Type 0
Rising low [] high = low ≤ high
Rising low (e ∷ es) high = (low < e.seq) × Rising e.seq es high

-- The version before the first entry that is kept.
abbrev pub start_of : FileState → ℕ
start_of f = f.version - length f.history

-- A file whose history is the last part of one line of patches, under a workspace's counter.
pub record IsLinear (seq : ℕ) (f : FileState) : Type 0 where
  pub numbered : Numbered (start_of f) f.history f.version
  pub rising : Rising 0 f.history seq
  pub kept : length f.history ≤ history_max

Numbered-length : (s : ℕ) (h : List Entry) (v : ℕ) → Numbered s h v → s + length h ≡ v
Numbered-length s [] v n = omega arith
Numbered-length s (e ∷ es) v n = omega (arith, Numbered-length (suc s) es v n.1)

Numbered-append :
    (s : ℕ) (h : List Entry) (v : ℕ) (e : Entry)
    → e.version ≡ v + 1
    → Numbered s h v
    → Numbered s (h ++ e ∷ []) (v + 1)
Numbered-append s [] v e p n = omega arith
Numbered-append s (x ∷ h) v e p n = (n.0, Numbered-append (suc s) h v e p n.1)

Numbered-drop :
    (k s : ℕ) (h : List Entry) (v : ℕ)
    → k ≤ length h
    → Numbered s h v
    → (t : ℕ) × (t ≡ s + k) × Numbered t (drop k h) v
Numbered-drop zero s h v l n = (s, omega arith, n)
Numbered-drop (suc k) s [] v l n = absurd (omega arith)
Numbered-drop (suc k) s (x ∷ h) v l n =
    let (t, e, m) = Numbered-drop k (suc s) h v (omega arith) n.1 in (t, omega arith, m)

Rising-append :
    (low : ℕ) (h : List Entry) (high : ℕ) (e : Entry)
    → e.seq ≡ high + 1
    → Rising low h high
    → Rising low (h ++ e ∷ []) (high + 1)
Rising-append low [] high e p r = omega arith
Rising-append low (x ∷ h) high e p r = (r.0, Rising-append x.seq h high e p r.1)

Rising-weaken :
    (low low' : ℕ) (h : List Entry) (high : ℕ) → low' ≤ low → Rising low h high → Rising low' h high
Rising-weaken low low' [] high l r = omega arith
Rising-weaken low low' (x ∷ h) high l r = (omega arith, r.1)

Rising-drop :
    (k low : ℕ) (h : List Entry) (high : ℕ) → Rising low h high → Rising low (drop k h) high
Rising-drop zero low h high r = r
Rising-drop (suc k) low [] high r = r
Rising-drop (suc k) low (x ∷ h) high r =
    Rising-weaken x.seq low (drop k h) high (omega arith) (Rising-drop k x.seq h high r.1)

pub Rising-later :
    (low : ℕ) (h : List Entry) (high high' : ℕ)
    → high ≤ high'
    → Rising low h high
    → Rising low h high'
Rising-later low [] high high' l r = omega arith
Rising-later low (x ∷ h) high high' l r = (r.0, Rising-later x.seq h high high' l r.1)

-- Dropping the oldest entries keeps a file linear, if it keeps few enough.
cut_front :
    (k : ℕ) (h : List Entry) (text : Text) (s v seq : ℕ)
    → k ≤ length h
    → length h - k ≤ history_max
    → Numbered s h v
    → Rising 0 h seq
    → IsLinear seq (record { text = text; version = v; history = drop k h })
cut_front k h text s v seq l short n r =
    let (t, e, m) = Numbered-drop k s h v l n in
    let start : t ≡ v - length (drop k h) = omega (arith, Numbered-length t (drop k h) v m) in
    record {
      numbered = subst (λ x. Numbered x (drop k h) v) start m;
      rising = Rising-drop k 0 h seq r;
      kept = omega (arith, length-drop k h);
    }

trim-IsLinear :
    (h : List Entry) (text : Text) (s v seq : ℕ)
    → Numbered s h v
    → Rising 0 h seq
    → IsLinear seq (record { text = text; version = v; history = trim h })
trim-IsLinear h text s v seq n r = elim (Bool-cases (ltb history_max (length h))) [
  | inl long ↦
      rw long (cut_front (length h - history_max) h text s v seq (omega arith) (ground arith) n r)
  | inr short ↦ rw short (cut_front 0 h text s v seq (omega arith) (ground arith) n r)
]

-- A patch extends the line of versions and of sequence numbers by one, and keeps at most the last
-- 200 entries.
pub patched-IsLinear :
    (f : FileState) (text : Text) (seq : ℕ) (actor : String) (base : ℕ) (ops : List Op)
    → IsLinear seq f
    → IsLinear (seq + 1) (patched f text (seq + 1) actor base ops)
unfolding patched
patched-IsLinear f text seq actor base ops l =
    trim-IsLinear _ text (start_of f) (f.version + 1) (seq + 1)
      (Numbered-append (start_of f) f.history f.version _ refl l.numbered)
      (Rising-append 0 f.history seq _ refl l.rising)

all_newer : (base s : ℕ) (h : List Entry) (v : ℕ) → base ≤ s → Numbered s h v → newer base h ≡ h
all_newer base s [] v l n = refl
all_newer base s (e ∷ h) v l (p, n) = ground (arith, all_newer base (suc s) h v)

newer-drop :
    (k base s : ℕ) (h : List Entry) (v : ℕ)
    → base ≡ s + k
    → Numbered s h v
    → newer base h ≡ drop k h
newer-drop zero base s h v e n = all_newer base s h v (omega arith) n
newer-drop (suc k) base s [] v e n = refl
newer-drop (suc k) base s (x ∷ h) v e (p, n) =
    let seen : ltb base x.version ≡ false = ground arith in
    rw seen (newer-drop k base (suc s) h v (omega arith) n)

-- The patches that a client at version `base` has not seen, as far as they are kept.
abbrev pub missed : FileState → ℕ → List Entry
missed f base = drop (base - start_of f) f.history

-- A client whose version is among those kept is rebased over exactly the patches that it missed:
-- their number is the distance of its version from the head, and they are the last ones, in order.
pub rebase_ops-missed :
    (seq : ℕ) (f : FileState) (base : ℕ) (ops : List Op)
    → IsLinear seq f
    → start_of f ≤ base
    → base ≤ f.version
    → (rebase_ops f.history base ops ≡ over_entries (missed f base) ops)
      × (length (missed f base) ≡ f.version - base)
unfolding rebase_ops
rebase_ops-missed seq f base ops l low high = (
  ap (λ h. over_entries h ops)
      (newer-drop (base - start_of f) base (start_of f) f.history f.version (omega arith)
        l.numbered),
  omega (
    arith,
    length-drop (base - start_of f) f.history,
    Numbered-length (start_of f) f.history f.version l.numbered,
  ),
)
