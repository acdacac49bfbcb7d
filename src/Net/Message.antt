-- ===== src/Net/Message.antt =====
-- src/change_lib/net/net_message.hpp. A value that is pushed or pulled is the list of its bytes;
-- the clock is read by an argument.
use wallchanger.Base.{
  ℕ, ◌-◌, ◌%◌, ◌^◌, Bool, true, ◌≡◌, ◌≢◌, List, ◌++◌, Option, none, some, refl, subst, nat_ordered,
  ◌==◌, ==_refl, ==_iff, false, if◌then◌else◌, leb, length, take, drop, take-append, drop-append,
  length-append, Outcome, done, fault, past_end, arith,
}
use wallchanger.Crc.{crc}
use wallchanger.Crc.Table.{crc-lt}

pub record MessageHeader (T : Type 0) : Type 0 where
  pub id : T
  pub size : ℕ
  pub hash : ℕ

pub record Message (T : Type 0) : Type 0 where
  pub header : MessageHeader T
  pub time : ℕ
  pub body : List ℕ

crc_cast : (bytes : List ℕ) → crc bytes % 2 ^ 32 ≡ crc bytes
crc_cast bytes = omega (arith, crc-lt bytes)

module _ {T : Type 0} where
  unfoldable pub finalize : ℕ → Message T → Message T
  finalize now msg = record msg {
    header = record msg.header { hash = crc msg.body % 2 ^ 32; size = length msg.body % 2 ^ 32 };
    time = now;
  }

  unfoldable pub validate : Message T → Bool
  validate msg = crc msg.body == msg.header.hash

  -- `<<`
  unfoldable pub push : ℕ → List ℕ → Message T → Message T
  unfolding finalize
  push now bytes msg =
      let body = msg.body ++ bytes in
      finalize now
        (record msg { body = body; header = record msg.header { size = length body % 2 ^ 32 } })

  abbrev pub pulled : ℕ → Message T → Option (List ℕ) × Message T
  pulled n msg = (
    some (drop (length msg.body - n) msg.body),
    record msg {
      body = take (length msg.body - n) msg.body;
      header = record msg.header { size = (length msg.body - n) % 2 ^ 32 };
    },
  )

  -- `>>` for a value of `n` bytes: the bytes that are copied, if any. Where the body is shorter the
  -- copy starts before the buffer.
  unfoldable pub pull : ℕ → Message T → Outcome (Option (List ℕ) × Message T)
  unfolding validate
  pull n msg =
      if validate msg
      then if leb n (length msg.body) then done (pulled n msg) else fault past_end
      else done (none, msg)

  pub validate-finalize : (now : ℕ) (msg : Message T) → validate (finalize now msg) ≡ true
  unfolding validate finalize
  validate-finalize now msg = rw (crc_cast msg.body) (==_refl (crc msg.body))

  -- A message is valid after `<<`, whatever was in it.
  pub validate-push :
      (now : ℕ) (bytes : List ℕ) (msg : Message T) → validate (push now bytes msg) ≡ true
  unfolding validate push finalize
  validate-push now bytes msg =
      rw (crc_cast (msg.body ++ bytes)) (==_refl (crc (msg.body ++ bytes)))

  -- What is pushed is pulled: `>>` right after `<<` gives the bytes of the value and takes the body
  -- back to what it was, with its size. The checksum stays the one of the longer body.
  pub pull-push :
      (now : ℕ) (bytes : List ℕ) (msg : Message T)
      → pull (length bytes) (push now bytes msg)
        ≡ done (
          some bytes,
          record msg {
            header = record msg.header {
              size = length msg.body % 2 ^ 32;
              hash = crc (msg.body ++ bytes);
            };
            time = now;
          },
        )
  unfolding pull push finalize
  pull-push now bytes msg =
      let n : length (msg.body ++ bytes) - length bytes ≡ length msg.body =
        omega (arith, length-append msg.body bytes) in
      let fits : leb (length bytes) (length (msg.body ++ bytes)) ≡ true =
        ground (arith, length-append msg.body bytes) in
      rw
        (
          crc_cast (msg.body ++ bytes),
          ==_refl (crc (msg.body ++ bytes)),
          fits,
          n,
          drop-append msg.body bytes,
          take-append msg.body bytes,
        )
        refl

  -- A second `>>`, of any size, takes nothing and leaves the message, if the shorter body does not
  -- have the checksum of the longer one: the checksum in the header is not computed again.
  pub pull_again :
      (now n : ℕ) (bytes : List ℕ) (msg after : Message T) (o : Option (List ℕ))
      → pull (length bytes) (push now bytes msg) ≡ done (o, after)
      → crc msg.body ≢ crc (msg.body ++ bytes)
      → pull n after ≡ done (none, after)
  unfolding pull validate
  pull_again now n bytes msg after o h differ =
      let popped : Message T = record msg {
        header = record msg.header {
          size = length msg.body % 2 ^ 32;
          hash = crc (msg.body ++ bytes);
        };
        time = now;
      } in
      let same : popped ≡ after = ground (arith, pull-push now bytes msg) in
      let bad : (crc msg.body == crc (msg.body ++ bytes)) ≡ false =
        ground (arith, ==_iff (crc msg.body) (crc (msg.body ++ bytes))) in
      subst (λ m. pull n m ≡ done (none, m)) same (rw bad refl)
