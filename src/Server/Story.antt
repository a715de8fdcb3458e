-- ===== src/Server/Story.antt =====
-- What src/server.rs prints about one client.
pub mod Turns
pub mod Steps
pub mod Runs
use postgread.Prelude.{
  ℕ, ◌≡◌, refl, ap, ◌∙◌, ◌≢◌, Bool, true, false, if◌then◌else◌, ◌==◌, List, [], ◌∷◌, ◌++◌, map,
  arith, append_assoc,
}
use postgread.Convey.Message.{Message}
use postgread.Msg.AsyncIo.{IoError}
use postgread.Convey.State.{ConveyError}
use postgread.Prelude.{Result}
use postgread.Server.Platform.{Platform, SocketAddr}
use postgread.Server.Client.{
  Line, new_connection, connected, stopped_conveying, could_not_connect, could_not_be_handled,
  got_from_server, got_from_client, dump_msg, Client, accepted, numbered, announced, connecting,
  conveying, ended, port_of,
}

module _ {p : Platform} where
  -- The line names the client's number.
  abbrev pub is_about : ℕ → Line p → Bool
  is_about k (new_connection listen_port client_id addr) = client_id == k
  is_about k (connected now listen_port client_id addr) = client_id == k
  is_about k (stopped_conveying now listen_port client_id result) = client_id == k
  is_about k (could_not_connect now listen_port client_id e) = client_id == k
  is_about k (could_not_be_handled now local_port client_id e) = client_id == k
  is_about k (got_from_server backend_msg) = false
  is_about k (got_from_client frontend_msg) = false

  -- The lines about one client.
  unfoldable pub told : ℕ → List (Line p) → List (Line p)
  told k [] = []
  told k (line ∷ lines) = let rest = told k lines in if is_about k line then line ∷ rest else rest

  pub told-append : (k : ℕ) (xs ys : List (Line p)) → told k (xs ++ ys) ≡ told k xs ++ told k ys
  unfolding told
  told-append k [] ys = refl
  told-append k (x ∷ xs) ys = by (is_about k x) (told-append k xs ys)
    where
      by :
          (b : Bool)
          → told k (xs ++ ys) ≡ told k xs ++ told k ys
          → (if b then x ∷ told k (xs ++ ys) else told k (xs ++ ys))
            ≡ (if b then x ∷ told k xs else told k xs) ++ told k ys
      by true e = ap (λ zs. x ∷ zs) e
      by false e = e

  pub told-one : (k : ℕ) (x : Line p) → is_about k x ≡ true → told k (x ∷ []) ≡ x ∷ []
  unfolding told
  told-one k x e = rw e refl

  pub told-none : (k : ℕ) (x : Line p) → is_about k x ≡ false → told k (x ∷ []) ≡ []
  unfolding told
  told-none k x e = rw e refl

  -- The messages that `dump_msg` prints name no client.
  pub told-dump_msg : (k : ℕ) (messages : List Message) → told k (map dump_msg messages) ≡ []
  unfolding told dump_msg
  told-dump_msg k [] = refl
  told-dump_msg k (Message.backend m ∷ messages) = told-dump_msg k messages
  told-dump_msg k (Message.frontend m ∷ messages) = told-dump_msg k messages

  -- What is printed about a client, as far as it goes, always under the same port.
  pub data IsStory (k : ℕ) : List (Line p) → Type 0 where
    silent : IsStory k []
    greeted : (port : ℕ) (addr : SocketAddr p.IpAddr) → IsStory k (new_connection port k addr ∷ [])
    refused :
        (port : ℕ) (addr : SocketAddr p.IpAddr) (now : List ℕ) (e : IoError)
        → IsStory k (new_connection port k addr ∷ could_not_be_handled now port k e ∷ [])
    unreachable :
        (port : ℕ) (addr : SocketAddr p.IpAddr) (now : List ℕ) (e : IoError)
        → IsStory k (new_connection port k addr ∷ could_not_connect now port k e ∷ [])
    conveyed :
        (port : ℕ) (addr : SocketAddr p.IpAddr) (now : List ℕ) (server : SocketAddr p.IpAddr)
        → IsStory k (new_connection port k addr ∷ connected now port k server ∷ [])
    stopped :
        (port : ℕ) (addr : SocketAddr p.IpAddr) (now : List ℕ) (server : SocketAddr p.IpAddr)
        (later : List ℕ) (result : Result ConveyError (Unit {0}))
        → IsStory k (
            new_connection port k addr
            ∷ connected now port k server
            ∷ stopped_conveying later port k result
            ∷ [])

  -- What has been printed about a client says where it stands.
  abbrev pub Tells : Client p → List (Line p) → Type 0
  Tells (accepted stream) lines = lines ≡ []
  Tells (numbered k stream) lines = lines ≡ []
  Tells (announced port k stream) lines =
      (port ≡ port_of p stream)
      × ((addr : SocketAddr p.IpAddr) × (lines ≡ new_connection port k addr ∷ []))
  Tells (connecting port k endpoint stream) lines =
      (addr : SocketAddr p.IpAddr) × (lines ≡ new_connection port k addr ∷ [])
  Tells (conveying port k client server rounds calls) lines =
      (addr : SocketAddr p.IpAddr) × (now : List ℕ) × (local : SocketAddr p.IpAddr) × (lines
        ≡ new_connection port k addr ∷ connected now port k local ∷ [])
  Tells (ended k) lines = IsStory k lines
