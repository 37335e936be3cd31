-- ===== src/Gdb/Session/Ends.antt =====
-- The loop of GdbRsp::satisfy_client of src/gdb_rsp.cc ends.
use mathlib.Core.Option.{Option, none, some}
use mathlib.Core.Option
use matar.Base.{
  ℕ, zero, suc, ◌^◌, ◌%◌, ◌<◌, ◌≤◌, ◌≡◌, refl, Bool, true, false, ◌&&◌, ◌==◌, if◌then◌else◌, [],
  ◌∷◌, arith, Bool-cases, inl, inr,
}
use matar.BusApi.{Bus}
use matar.Gdb.Text.{Text, length, drop, at, stoul, take, ◌>>=◌}
use matar.Gdb.Packet.{receive, receive_body, c_str, checksum}
use matar.Gdb.Command.{Rsp}
use matar.Gdb.Session.{
  Session, done, threw, out_of_fuel, satisfy_client, receive_and_handle, client_waiting, handle,
}
use matar.Gdb.Session.Kept.{handle-Keeps}

length-drop : (n : ℕ) (s : Text) → length (drop n s) ≤ length s
unfolding drop
length-drop zero s = omega arith
length-drop (suc n) [] = omega arith
length-drop (suc n) (c ∷ s) = omega (arith, length-drop n s)

-- A body behind its first byte, from what the rest of the input gives.
next_byte :
    (c : ℕ) (input : Text) (m : Text × Text) (o : Option (Text × Text))
    → ((n : Text × Text) → o ≡ some n → length n.1 < length input)
    → (if c == b'#' then some ([], input) else Option.map (λ r. (c ∷ r.0, r.1)) o) ≡ some m
    → length m.1 < suc (length input)
next_byte c input m none ih h = ground (arith, h)
next_byte c input m (some n) ih h = ground (arith, h, ih n refl)

length-receive_body :
    (room : ℕ) (input : Text) (m : Text × Text)
    → receive_body room input ≡ some m
    → length m.1 < length input
unfolding receive_body
length-receive_body room [] m h = absurd (cc)
length-receive_body zero (c ∷ input) m h = ground (arith, h)
length-receive_body (suc room) (c ∷ input) m h =
    next_byte c input m (receive_body room input) (length-receive_body room input) h

-- A message from the rest of a packet, behind its body.
checked_sum :
    (input : Text) (n m : Text × Text) (o : Option ℕ)
    → length n.1 < length input
    → (o >>= λ sum. if sum == checksum n.0 % 2 ^ 8 then some (b'$' ∷ n.0, drop 2 n.1) else none)
      ≡ some m
    → length m.1 < length input
checked_sum input n m none lt h = absurd (cc)
checked_sum input n m (some sum) lt h = ground (arith, h, lt, length-drop 2 n.1)

checked :
    (input : Text) (m : Text × Text) (o : Option (Text × Text))
    → ((n : Text × Text) → o ≡ some n → length n.1 < length input)
    → (o >>= λ r. stoul (c_str (take 2 r.1)) >>= λ sum.
        if sum == checksum r.0 % 2 ^ 8 then some (b'$' ∷ r.0, drop 2 r.1) else none)
      ≡ some m
    → length m.1 < length input
checked input m none ih h = absurd (cc)
checked input m (some n) ih h = checked_sum input n m (stoul (c_str (take 2 n.1))) (ih n refl) h

-- Every message takes a byte at least, if one is there.
length-receive :
    (input : Text) (m : Text × Text)
    → receive input ≡ some m
    → 0 < length input
    → length m.1 < length input
unfolding receive drop
length-receive [] m h pos = absurd (omega arith)
length-receive (c ∷ s) m h pos = elim (Bool-cases (at 0 (c ∷ s) == b'$')) [
  | inl packet ↦
      let shorter =
        checked s m (receive_body 4095 s) (length-receive_body 4095 s) (rw packet at h) in
      omega (arith, shorter)
  | inr byte ↦ let e = rw byte at h in ground (arith, e)
]

-- A loop that has ended: by its own test, or by an exception of a message.
abbrev pub HasEnded : (b : Bus) → Session b → Type 0
HasEnded b (done s) = (client_waiting b s && s.attached) ≡ false
HasEnded b threw = Unit {0}
HasEnded b out_of_fuel = ⊥

length-handled :
    (b : Bus) (r : Rsp b) (n : ℕ) (o : Option (Text × Text)) (m : Text × Rsp b)
    → ((k : Text × Text) → o ≡ some k → length k.1 < n)
    → (elim o [ none ↦ none | some k ↦ some (k.0, handle b k.0 (record r { incoming = k.1 })) ])
      ≡ some m
    → length (m.1).incoming < n
length-handled b r n none m shorter h = absurd (cc)
length-handled b r n (some k) m shorter h =
    let kept = handle-Keeps b k.0 (record r { incoming = k.1 }) in
    ground (arith, h, shorter k refl, kept)

length-receive_and_handle :
    (b : Bus) (r : Rsp b) (m : Text × Rsp b)
    → 0 < length r.incoming
    → receive_and_handle b r ≡ some m
    → length (m.1).incoming < length r.incoming
unfolding receive_and_handle
length-receive_and_handle b r m pos h =
    length-handled b r (length r.incoming) (receive r.incoming) m
      (λ k e. length-receive r.incoming k e pos) h

next_round :
    (b : Bus) (fuel : ℕ) (o : Option (Text × Rsp b))
    → ((m : Text × Rsp b) → o ≡ some m → HasEnded b (satisfy_client b fuel m.1))
    → HasEnded b (elim o [ none ↦ threw | some m ↦ satisfy_client b fuel m.1 ])
next_round b fuel none rest = tt
next_round b fuel (some m) rest = rest m refl

this_round :
    (b : Bus) (fuel : ℕ) (r : Rsp b) (test : Bool)
    → (client_waiting b r && r.attached) ≡ test
    → (0 < length r.incoming
        → (m : Text × Rsp b) → receive_and_handle b r ≡ some m
        → HasEnded b (satisfy_client b fuel m.1))
    → HasEnded b (elim test [
      | false ↦ done r
      | true ↦ elim (receive_and_handle b r) [ none ↦ threw | some m ↦ satisfy_client b fuel m.1 ]
    ])
unfolding client_waiting
this_round b fuel r false e rest = e
this_round b fuel r true e rest =
    next_round b fuel (receive_and_handle b r) (rest (ground (arith, e)))

-- With more fuel than bytes still to arrive, `satisfy_client` ends by its own test, with no byte waiting or the client detached, or by the exception of a message that does not check.
pub satisfy_client-HasEnded :
    (b : Bus) (fuel : ℕ) (r : Rsp b)
    → length r.incoming < fuel
    → HasEnded b (satisfy_client b fuel r)
unfolding satisfy_client
satisfy_client-HasEnded b zero r h = absurd (omega arith)
satisfy_client-HasEnded b (suc fuel) r h =
    this_round b fuel r (client_waiting b r && r.attached) refl (λ pos m e.
      satisfy_client-HasEnded b fuel m.1 (omega (arith, h, length-receive_and_handle b r m pos e)))
