-- ===== src/Start/Closed.antt =====
-- cloud_backup_server.hpp: the end of a server.
use cloud_backup_system.Common.{
  ℕ, ◌≡◌, ◌⊎◌, ◌≢◌, refl, Option, none, some, arith, inl, inr, ==-ne, ==-refl, ◌∙◌, sym,
}
use cloud_backup_system.System.{System}
use cloud_backup_system.System.Descriptors.{OpenFile, ProcessLaws, put}
use cloud_backup_system.NetSocket.{close_socket}
use cloud_backup_system.Epoll.{close_epoll}
use cloud_backup_system.Start.{CloudBackupServer, close_fd, destory_server, destruct_server}

-- The descriptors that a server has.
abbrev pub Owns : CloudBackupServer → ℕ → Type 0
Owns s fd =
    (s.write_pipe_fd ≡ some fd)
    ⊎ ((s.read_pipe_fd ≡ some fd) ⊎ ((s.epollfd ≡ fd) ⊎ (s.socket ≡ some fd)))

-- The process without a descriptor that can be -1.
abbrev without : Option ℕ → (ℕ → Option OpenFile) → ℕ → Option OpenFile
without none f = f
without (some fd) f = put fd none f

without-put :
    (o : Option ℕ) (f : ℕ → Option OpenFile) (fd : ℕ) → o ≡ some fd → without o f fd ≡ none
without-put none f fd h = absurd (ground (arith, h))
without-put (some j) f fd h = ground (arith, h)

without-none :
    (o : Option ℕ) (f : ℕ → Option OpenFile) (fd : ℕ) → f fd ≡ none → without o f fd ≡ none
without-none none f fd h = h
without-none (some j) f fd h = ground (arith, h)

closed_twice : (j : ℕ) (f : ℕ → Option OpenFile) (fd : ℕ) → f fd ≡ none → put j none f fd ≡ none
closed_twice j f fd h = ground (arith, h)

without-other :
    (o : Option ℕ) (f : ℕ → Option OpenFile) (fd : ℕ) → o ≢ some fd → without o f fd ≡ f fd
without-other none f fd h = refl
without-other (some j) f fd h = rw (==-ne fd j (λ e. h (rw e refl))) refl

module _ (sys : System) (laws : ProcessLaws sys) where
  open laws use {process}

  close_fd_lem :
      (o : Option ℕ) (w : sys.World)
      → (process (close_fd sys o w)).file_at ≡ without o (process w).file_at
  close_fd_lem none w = refl
  close_fd_lem (some fd) w = rw (laws.closed fd w) refl

  close_socket_lem :
      (o : Option ℕ) (w : sys.World)
      → (process (close_socket sys o w)).file_at ≡ without o (process w).file_at
  unfolding close_socket
  close_socket_lem none w = refl
  close_socket_lem (some fd) w = rw (laws.closed fd w) refl

  destruct_server_lem :
      (s : CloudBackupServer) (w : sys.World)
      → (process (destruct_server sys s w)).file_at
        ≡ without s.socket (
            put s.epollfd none
              (without s.write_pipe_fd (without s.read_pipe_fd (process w).file_at)))
  unfolding destruct_server destory_server close_epoll
  destruct_server_lem s w =
      let v1 = close_fd sys s.read_pipe_fd w in
      let v2 = close_fd sys s.write_pipe_fd v1 in
      rw
        (
          close_socket_lem s.socket (sys.close s.epollfd v2),
          laws.closed s.epollfd v2,
          close_fd_lem s.write_pipe_fd v1,
          close_fd_lem s.read_pipe_fd w,
        )
        refl

  -- After the destructor no descriptor of the server is open: the ends of the pipe, the set of epoll
  -- and the socket. Every other descriptor is what it was.
  pub destruct_server-Closed :
      (s : CloudBackupServer) (w : sys.World) (fd : ℕ)
      → (Owns s fd → (process (destruct_server sys s w)).file_at fd ≡ none)
        × ((Owns s fd → ⊥)
            → (process (destruct_server sys s w)).file_at fd ≡ (process w).file_at fd)
  destruct_server-Closed s w fd =
      let f0 = (process w).file_at in
      let f1 = without s.read_pipe_fd f0 in
      let f2 = without s.write_pipe_fd f1 in
      let f3 = put s.epollfd none f2 in
      rw (destruct_server_lem s w) (
        λ owns. elim owns [
          | inl e ↦
              without-none s.socket f3 fd
                (closed_twice s.epollfd f2 fd (without-put s.write_pipe_fd f1 fd e))
          | inr more ↦ elim more [
            | inl e ↦ without-none s.socket f3 fd (
                closed_twice s.epollfd f2 fd
                  (without-none s.write_pipe_fd f1 fd (without-put s.read_pipe_fd f0 fd e)))
            | inr rest ↦ elim rest [
              | inl e ↦ without-none s.socket f3 fd (rw (e, ==-refl fd) refl)
              | inr e ↦ without-put s.socket f3 fd e
            ]
          ]
        ],
        λ other.
            without-other s.socket f3 fd (λ e. other (inr (inr (inr e))))
            ∙ (rw (==-ne fd s.epollfd (λ e. other (inr (inr (inl (sym e)))))) (
                without-other s.write_pipe_fd f1 fd (λ e. other (inl e))
                ∙ without-other s.read_pipe_fd f0 fd (λ e. other (inr (inl e))))),
      )
