-- ===== src/Tests/ListStream.antt =====
-- A stream in memory, for the tests: what is still to come, what has been read, what was written.
use postgread.Prelude.{
  ℕ, zero, suc, ◌%◌, ◌≡◌, refl, ap, List, [], ◌∷◌, ◌++◌, Option, none, some, Result, ok, err,
  length, AllBytes, arith,
}
use postgread.Msg.AsyncIo.{IoError, ByteStream, unexpected_eof}
use postgread.Msg.AsyncIo.Delivery.{Delivers}
use postgread.Convey.Stream.{Channel}
use postgread.Convey.Flow.{Up}

pub record ListStream : Type 0 where
  pub incoming : List ℕ
  pub taken : List ℕ
  pub given : List ℕ

abbrev pub eof : IoError
eof = record { error_kind = unexpected_eof; text = [] }

abbrev pub cons : ℕ → Option (List ℕ × List ℕ) → Option (List ℕ × List ℕ)
cons x (some (a, b)) = some (x % 256 ∷ a, b)
cons x none = none

-- The next bytes, and what is behind them.
abbrev pub take_bytes : ℕ → List ℕ → Option (List ℕ × List ℕ)
take_bytes zero xs = some ([], xs)
take_bytes (suc n) [] = none
take_bytes (suc n) (x ∷ xs) = cons x (take_bytes n xs)

cons_lem :
    (x n : ℕ) (o : Option (List ℕ × List ℕ)) {a b : List ℕ}
    → ((c d : List ℕ) → o ≡ some (c, d) → (length c ≡ n) × AllBytes c)
    → cons x o ≡ some (a, b)
    → (length a ≡ suc n) × AllBytes a
cons_lem x n (some (c, d)) {a} {b} h e =
    let (size, all) = h c d refl in
    let same : x % 256 ∷ c ≡ a = cc in rw (← same) (ap suc size, (omega arith, all))
cons_lem x n none h e = cc

take_bytes_lem :
    (n : ℕ) (xs a b : List ℕ) → take_bytes n xs ≡ some (a, b) → (length a ≡ n) × AllBytes a
take_bytes_lem zero xs a b e = let same : [] ≡ a = cc in rw (← same) (refl, tt)
take_bytes_lem (suc n) [] a b e = cc
take_bytes_lem (suc n) (x ∷ xs) a b e =
    cons_lem x n (take_bytes n xs) (λ c d k. take_bytes_lem n xs c d k) e

abbrev pub read_of : Option (List ℕ × List ℕ) → ListStream → Result IoError (List ℕ) × ListStream
read_of (some (a, b)) s = (ok a, record { incoming = b; taken = s.taken ++ a; given = s.given })
read_of none s = (err eof, s)

abbrev pub read : ℕ → ListStream → Result IoError (List ℕ) × ListStream
read n s = read_of (take_bytes n s.incoming) s

abbrev pub write : List ℕ → ListStream → Result IoError (Unit {0}) × ListStream
write bytes s = (ok tt, record { incoming = s.incoming; taken = s.taken; given = s.given ++ bytes })

read_of_lem :
    (n : ℕ) (o : Option (List ℕ × List ℕ)) (s : ListStream) {bytes : List ℕ}
    → ((a b : List ℕ) → o ≡ some (a, b) → (length a ≡ n) × AllBytes a)
    → (read_of o s).0 ≡ ok bytes
    → (length bytes ≡ n) × AllBytes bytes × ((read_of o s).1.taken ≡ s.taken ++ bytes)
read_of_lem n (some (a, b)) s {bytes} h e =
    let (size, all) = h a b refl in let same : a ≡ bytes = cc in rw (← same) (size, all, refl)
read_of_lem n none s h e = cc

pub read_lem :
    (n : ℕ) (s : ListStream) {bytes : List ℕ}
    → (read n s).0 ≡ ok bytes
    → (length bytes ≡ n) × AllBytes bytes × ((read n s).1.taken ≡ s.taken ++ bytes)
read_lem n s e =
    read_of_lem n (take_bytes n s.incoming) s (λ a b k. take_bytes_lem n s.incoming a b k) e

pub read_of-given :
    (o : Option (List ℕ × List ℕ)) (s : ListStream) → (read_of o s).1.given ≡ s.given
read_of-given (some (a, b)) s = refl
read_of-given none s = refl

abbrev pub list_io : ByteStream ListStream
list_io = record {
  read_exact = read;
  write_all = write;
  received = λ s. s.taken;
  sent = λ s. s.given;
  read_exact-length = λ n s {bytes} e. (read_lem n s e).0;
  read_exact-AllBytes = λ n s {bytes} e. (read_lem n s e).1;
  read_exact-received = λ n s {bytes} e. (read_lem n s e).2;
  read_exact-sent = λ n s. read_of-given (take_bytes n s.incoming) s;
  write_all-sent = λ bytes s e. refl;
  write_all-received = λ bytes s. refl;
}

-- A side whose streams are in memory, and whose handshake keeps the stream.
abbrev pub list_channel : Channel
list_channel = record {
  Plain = ListStream;
  Tls = ListStream;
  Failure = Unit {0};
  plain_io = list_io;
  tls_io = list_io;
  handshake = ok;
}

abbrev pub coming : List ℕ → ListStream
coming bytes = record { incoming = bytes; taken = []; given = [] }

take_bytes-append :
    (bytes rest : List ℕ)
    → AllBytes bytes
    → take_bytes (length bytes) (bytes ++ rest) ≡ some (bytes, rest)
take_bytes-append [] rest h = refl
take_bytes-append (x ∷ bytes) rest (h, hs) =
    rw (take_bytes-append bytes rest hs, (let e : x % 256 ≡ x = omega arith in e))

pub list_reads :
    (bytes rest : List ℕ) (s : ListStream)
    → AllBytes bytes
    → s.incoming ≡ bytes ++ rest
    → ((read (length bytes) s).0 ≡ ok bytes) × ((read (length bytes) s).1.incoming ≡ rest)
list_reads bytes rest s h e = rw (e, take_bytes-append bytes rest h) (refl, refl)

-- The stream in memory is up.
abbrev pub list_up : Delivers list_io
list_up = record {
  waiting = λ s. s.incoming;
  read_exact-waiting = λ bytes rest s h e. list_reads bytes rest s h e;
  write_all-waiting = λ bytes s. (refl, refl);
}

abbrev pub list_channel_up : Up list_channel
list_channel_up = record { plain_up = list_up; tls_up = list_up }
