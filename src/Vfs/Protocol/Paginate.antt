-- ===== src/Vfs/Protocol/Paginate.antt =====
-- `paginate`: the loop that reads every page of a listing. `fetch` is a closure with a state of its
-- own, such as the descriptor of the kernel's key; `parse` is a parser of one page.
use meta_hybrid_mount.Prelude.{
  ℕ, zero, suc, ◌-◌, ◌<◌, ◌≡◌, ◌≢◌, List, ◌++◌, arith, leb, ◌==◌, if◌then◌else◌, length, Bool,
  false, inl, inr, Option, none, some,
}
use meta_hybrid_mount.Text.{is_empty}
use meta_hybrid_mount.Errors.{Result, ok, err, ◌>>=◌, Result-cases, cursor_stuck}
use meta_hybrid_mount.Vfs.Protocol.Decode.{read_data_size}

module _ {S T : Type 0} (fetch : ℕ → S → Result (List ℕ) × S)
    (parse : List ℕ → Result (List T × ℕ)) where
  -- Whether the page ends the listing: nothing was listed, and the kernel wrote no byte.
  ends : List T → List ℕ → Result Bool
  ends batch payload =
      if is_empty batch then (do size ← read_data_size payload; ok (size == 0)) else ok false

  -- What one round of the loop does with a page: the batch and the cursor to go on from, or `none`
  -- where the listing ends.
  unfoldable pub round : ℕ → List ℕ → Result (Option (List T × ℕ))
  unfolding ends
  round cursor payload = do
    (batch, next) ← parse payload
    finished ← ends batch payload
    if finished
        then ok none
        else if leb next cursor
        then err (cursor_stuck next (length batch) cursor)
        else ok (some (batch, next))

  -- The loop with fuel; `none` means that the fuel ran out.
  unfoldable pub paginate_from : ℕ → ℕ → List T → S → Option (Result (List T) × S)
  paginate_from zero cursor found s = none
  paginate_from (suc fuel) cursor found s =
      let (page, s') = fetch cursor s in
      elim (page >>= round cursor) [
        | err e ↦ some (err e, s')
        | ok none ↦ some (ok found, s')
        | ok (some (batch, next)) ↦ paginate_from fuel next (found ++ batch) s'
      ]

  round_advances :
      (cursor : ℕ) (page : Result (List ℕ)) (batch : List T) (next : ℕ)
      → (page >>= round cursor) ≡ ok (some (batch, next))
      → cursor < next
  unfolding round
  round_advances cursor page batch next h = ground arith

  module _ (limit : ℕ)
      (bounded : (p : List ℕ) (batch : List T) (next : ℕ)
        → parse p ≡ ok (batch, next)
        → next < limit) where
    round_bounded :
        (cursor : ℕ) (page : Result (List ℕ)) (batch : List T) (next : ℕ)
        → (page >>= round cursor) ≡ ok (some (batch, next))
        → next < limit
    unfolding round
    round_bounded cursor (err e) batch next h = cc
    round_bounded cursor (ok p) batch next h = ground (arith, bounded p batch next)

    -- Whatever the kernel answers, the loop ends: the cursor grows in every round and stays below
    -- the limit that `parse` keeps, 2^32 for a `u32`.
    pub paginate-total :
        (fuel cursor : ℕ) (found : List T) (s : S)
        → limit - cursor < fuel
        → paginate_from fuel cursor found s ≢ none
    unfolding paginate_from
    paginate-total zero cursor found s h = absurd (omega arith)
    paginate-total (suc fuel) cursor found s h =
        let page = (fetch cursor s).0 in
        elim (Result-cases (page >>= round cursor)) [
          | inr (e, q) ↦ rw (q, paginate_from) (λ p. cc)
          | inl (none, q) ↦ rw (q, paginate_from) (λ p. cc)
          | inl (some (batch, next), q) ↦
              rw (q, paginate_from)
                (paginate-total fuel next (found ++ batch) (fetch cursor s).1 (
                  omega (
                    arith,
                    round_advances cursor page batch next q,
                    round_bounded cursor page batch next q,
                  )))
        ]
