-- ===== src/Framing/Buffers.antt =====
-- What is in a frame: the array that is used again leaves nothing of what was in it.
use value_rpc.Prelude.{
  ℕ, zero, suc, ◌+◌, ◌≤◌, ◌≡◌, refl, ap, ◌∙◌, inl, inr, ltb, leb, List, [], ◌∷◌, ◌++◌, length, drop,
  append-nil, drop-length, Bool-cases, leb→le, arith,
}
use value_rpc.Framing.{
  MsgConn, take, copy_over, copy_at, zeros, buffer_for, filled, do_write_frame, put_uint32,
  reusable_write_buf_cap,
}

length-take : (n : ℕ) (xs : List ℕ) → n ≤ length xs → length (take n xs) ≡ n
length-take zero xs h = refl
length-take (suc n) [] h = absurd (omega arith)
length-take (suc n) (x ∷ xs) h = ap suc (length-take n xs (omega arith))

length-zeros : (n : ℕ) → length (zeros n) ≡ n
unfolding zeros
length-zeros zero = refl
length-zeros (suc n) = ap suc (length-zeros n)

copy_over_lem :
    (dst src : List ℕ) → length src ≤ length dst → copy_over dst src ≡ src ++ drop (length src) dst
copy_over_lem dst [] h = refl
copy_over_lem [] (s ∷ ss) h = absurd (omega arith)
copy_over_lem (d ∷ ds) (s ∷ ss) h = ap (λ xs. s ∷ xs) (copy_over_lem ds ss (omega arith))

copy_exact : (dst src : List ℕ) → length dst ≡ length src → copy_over dst src ≡ src
copy_exact dst src h =
    copy_over_lem dst src (omega arith)
    ∙ ap (λ xs. src ++ xs) (drop-length (length src) dst (omega arith))
    ∙ append-nil src

-- The header is written over the first four bytes, and the payload over the rest.
filled_lem :
    (frame payload : List ℕ)
    → length frame ≡ 4 + length payload
    → filled frame payload ≡ put_uint32 (length payload) ++ payload
unfolding filled copy_at put_uint32
filled_lem [] payload h = absurd (omega arith)
filled_lem (a ∷ []) payload h = absurd (omega arith)
filled_lem (a ∷ b ∷ []) payload h = absurd (omega arith)
filled_lem (a ∷ b ∷ c ∷ []) payload h = absurd (omega arith)
filled_lem (a ∷ b ∷ c ∷ d ∷ frame) payload h =
    ap (λ xs. put_uint32 (length payload) ++ xs) (copy_exact frame payload (omega arith))

length-buffer_for :
    (need : ℕ) (c : MsgConn) → need ≤ reusable_write_buf_cap → need ≤ length (buffer_for need c)
unfolding buffer_for
length-buffer_for need c h = elim (Bool-cases (ltb (length c.write_buf) need)) [
  | inl e ↦ rw e (let l = length-zeros reusable_write_buf_cap in omega arith)
  | inr e ↦ rw e (ground arith)
]

-- Whatever the buffer held, the bytes that are written are the header and the payload.
pub do_write_frame-out :
    (payload : List ℕ) (c : MsgConn)
    → (do_write_frame payload c).out ≡ c.out ++ (put_uint32 (length payload) ++ payload)
unfolding do_write_frame
do_write_frame-out payload c = elim (Bool-cases (leb (4 + length payload) reusable_write_buf_cap)) [
  | inl e ↦ rw e (
      ap (λ xs. c.out ++ xs)
        (filled_lem _ payload (length-take _ _ (length-buffer_for _ c (leb→le _ _ e)))))
  | inr e ↦ rw e (ap (λ xs. c.out ++ xs) (filled_lem _ payload (length-zeros (4 + length payload))))
]
