-- ===== src/Matlab.antt =====
-- client/matlab/sunconnect.c, sunsend.c, sunrecv.c and sunclose.c: the functions of the MATLAB client
-- that open a socket, send, receive and close. What MATLAB passes and what the system returns is an
-- argument; texts are lists of bytes, without the zero behind them.
pub mod Sent
pub mod Examples
use dime.Base.{
  ℕ, ◌-◌, ◌%◌, ◌^◌, Bool, true, false, not, ◌||◌, Option, none, some, List, [], ◌∷◌, ltb, ◌==◌,
  if◌then◌else◌, length, take, drop,
}

-- An array that MATLAB passes: whether it holds 64-bit integers, its size, and its bytes.
pub record MxArray : Type 0 where
  pub is_int64 : Bool
  pub rows : ℕ
  pub cols : ℕ
  pub first : ℕ
  pub bytes : List ℕ

-- What a function ends with, or the error that it raises.
pub data Raised : Type 0 where
  argument_count invalid_argument system_error broken_pipe : Raised

pub data Mex {ℓ} (A : Type ℓ) : Type ℓ where
  returned : A → Mex A
  raised : Raised → Mex A

-- The descriptor in an array, as an `int`.
descriptor : MxArray → Option ℕ
descriptor a =
    if not a.is_int64 || not (a.rows == 1) || not (a.cols == 1)
    then none
    else some (a.first % 2 ^ 32)

-- The checks that `sunrecv` and `sunclose` begin with.
pub checked : ℕ → List MxArray → Mex ℕ
unfolding descriptor
checked n [] = raised argument_count
checked n (a ∷ args) =
    if not (length (a ∷ args) == n)
    then raised argument_count
    else elim (descriptor a) [ none ↦ raised invalid_argument | some fd ↦ returned fd ]

-- The loop of `sunsend`, over what `send` returns, call by call: what the calls took, in turn.
pub data Sending : Type 0 where
  all_sent : List (List ℕ) → Sending
  send_failed : Sending
  sending_on : Sending

and_sent : List ℕ → Sending → Sending
and_sent part (all_sent parts) = all_sent (part ∷ parts)
and_sent part send_failed = send_failed
and_sent part sending_on = sending_on

pub send_all : List (Option ℕ) → List ℕ → Sending
unfolding and_sent
send_all results [] = all_sent []
send_all [] (b ∷ bs) = sending_on
send_all (none ∷ results) (b ∷ bs) = send_failed
send_all (some m ∷ results) (b ∷ bs) =
    and_sent (take m (b ∷ bs)) (send_all results (drop m (b ∷ bs)))

-- `sunsend`, whose second argument is sent as its bytes are; `sending_on` is no end.
pub sunsend : List (Option ℕ) → List MxArray → Mex Sending
sunsend results (fd ∷ text ∷ []) =
    if not fd.is_int64 || not (fd.rows == 1) || not (fd.cols == 1)
    then raised invalid_argument
    else (elim (send_all results text.bytes) [
      | all_sent parts ↦ returned (all_sent parts)
      | send_failed ↦ raised system_error
      | sending_on ↦ returned sending_on
    ])
sunsend results _ = raised argument_count

-- `sunrecv` of `n` bytes, with what `recv` returns.
pub received : ℕ → Option (List ℕ) → Mex (List ℕ)
received n none = raised system_error
received n (some bytes) = if ltb (length bytes) n then raised broken_pipe else returned bytes

pub sunrecv : (ℕ → ℕ → Option (List ℕ)) → List MxArray → Mex (List ℕ)
unfolding received checked
sunrecv recv args = elim (checked 2 args) [
  | raised why ↦ raised why
  | returned fd ↦ elim args [
    | a ∷ b ∷ rest ↦ received b.first (recv fd b.first)
    | _ ↦ raised argument_count
  ]
]

-- `sunclose`, with whether `shutdown` and `close` succeed. The second part lists what `close` was called
-- on: nothing, where `shutdown` fails.
pub sunclose : Bool → Bool → List MxArray → Mex (Unit {0}) × List ℕ
unfolding checked
sunclose shuts closes args = elim (checked 1 args) [
  | raised why ↦ (raised why, [])
  | returned fd ↦
      if not shuts
      then (raised system_error, [])
      else if not closes
      then (raised system_error, fd ∷ [])
      else (returned tt, fd ∷ [])
]

-- `sunconnect`, for a pathname, if the argument is a text: where the connection fails the descriptor is
-- closed. The second part lists what was closed; the first is the path and the descriptor.
pub sunconnect : Option ℕ → Bool → List (Option (List ℕ)) → Mex (List ℕ × ℕ) × List ℕ
sunconnect socket connects (some filename ∷ []) = elim socket [
  | none ↦ (raised system_error, [])
  | some fd ↦
      if connects then (returned (take 107 filename, fd), []) else (raised system_error, fd ∷ [])
]
sunconnect socket connects (none ∷ []) = (raised invalid_argument, [])
sunconnect socket connects _ = (raised argument_count, [])
