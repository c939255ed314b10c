-- ===== src/Tunnel/Writes.antt =====
-- The write loop: a frame is on the stream whole, or the write is an error.
use obsidian_vpn.Base.{ℕ, ◌≡◌, List, [], ◌∷◌, ◌++◌, none, some, take, drop, arith, take-append-drop}
use obsidian_vpn.Tunnel.{Write, wrote, failed, write_frame}
use mathlib.Core.List.{append_assoc, append-nil}

write_frame_loop :
    (calls : List Write) (sent frame out : List ℕ)
    → write_frame calls sent frame ≡ some (out, none)
    → out ≡ sent ++ frame
unfolding write_frame
write_frame_loop calls sent [] out e = cc (append-nil sent)
write_frame_loop [] sent (b ∷ bs) out e = cc
write_frame_loop (failed n ∷ calls) sent (b ∷ bs) out e = cc
write_frame_loop (wrote n ∷ calls) sent (b ∷ bs) out e = ground (
  arith,
  write_frame_loop calls (sent ++ take n (b ∷ bs)) (drop n (b ∷ bs)) out,
  append_assoc sent (take n (b ∷ bs)) (drop n (b ∷ bs)),
  take-append-drop n (b ∷ bs),
)

-- When the write loop returns no error, what it put on the stream is the whole frame in order,
-- however the connection split it.
pub write_frame_whole :
    (calls : List Write) (frame out : List ℕ)
    → write_frame calls [] frame ≡ some (out, none)
    → out ≡ frame
write_frame_whole calls frame out e = write_frame_loop calls [] frame out e
