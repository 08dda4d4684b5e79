-- ===== src/Mirror/Chunks.antt =====
-- The slices in which `process` of src/mirror.rs parses: together they are the chunk.
use g2mirror.Prelude.{
  ℕ, zero, suc, ◌≤◌, ◌<◌, ◌≡◌, refl, ap, ◌∙◌, List, [], ◌∷◌, ◌++◌, Bytes, length, take, drop,
  length-drop, take-append-drop, arith,
}
use g2mirror.Mirror.Process.{chunks_from, chunks}

abbrev pub join : List Bytes → Bytes
join [] = []
join (b ∷ bs) = b ++ join bs

join-chunks_from :
    (f n : ℕ) (bytes : Bytes) → 0 < n → length bytes ≤ f → join (chunks_from f n bytes) ≡ bytes
unfolding chunks_from
join-chunks_from zero n [] p h = refl
join-chunks_from zero n (b ∷ bs) p h = absurd (omega arith)
join-chunks_from (suc f) n [] p h = refl
join-chunks_from (suc f) n (b ∷ bs) p h =
    ap (◌++◌ (take n (b ∷ bs)))
      (join-chunks_from f n (drop n (b ∷ bs)) p (omega (arith, length-drop n (b ∷ bs))))
    ∙ take-append-drop n (b ∷ bs)

pub join-chunks : (n : ℕ) (bytes : Bytes) → 0 < n → join (chunks n bytes) ≡ bytes
unfolding chunks
join-chunks n bytes p = join-chunks_from (length bytes) n bytes p (omega arith)
