-- ===== src/File.antt =====
-- The open-file table (kernel/file.c: filealloc, filedup, fileclose) and pipealloc of kernel/pipe.c.
-- A pointer to an entry is its index. What fileclose does once the table's lock is released is its
-- answer; the page of a new pipe comes from kalloc, whose answer is an argument.
pub mod References
mod Tests
use mathlib.Core.Option
use os_cea.Base.{
  ℕ, zero, suc, ◌+◌, ◌-◌, Bool, true, false, Option, none, some, List, [], ◌∷◌, ◌==◌, if◌then◌else◌,
  get_elem?, modify, find_index?, ltb,
}
use os_cea.Pipe.{Pipe}

pub data FileType : Type 0 where
  fd_none fd_pipe fd_inode fd_device : FileType

-- `struct file`; a pipe is its page, an inode its place in the inode table.
pub record File : Type 0 where
  pub type : FileType
  pub ref : ℕ
  pub readable : Bool
  pub writable : Bool
  pub pipe : ℕ
  pub ip : ℕ

pub filealloc : List File → Option ℕ × List File
filealloc fs = elim (find_index? (λ f. f.ref == 0) fs) [
  | none ↦ (none, fs)
  | some i ↦ (some i, modify fs i (λ f. record f { ref = 1 }))
]

-- `none` is the panic.
pub filedup : ℕ → List File → Option (List File)
filedup i fs = elim (get_elem? fs i) [
  | none ↦ none
  | some f ↦ if ltb f.ref 1 then none else some (modify fs i (λ f. record f { ref = f.ref + 1 }))
]

-- What is left to do after the table's lock is released.
pub data Close : Type 0 where
  still_open : Close
  close_pipe : ℕ → Bool → Close
  put_inode : ℕ → Close
  nothing : Close

abbrev pub last_close : File → Close
last_close f = elim f.type [
  | fd_none ↦ nothing
  | fd_pipe ↦ close_pipe f.pipe f.writable
  | fd_inode ↦ put_inode f.ip
  | fd_device ↦ put_inode f.ip
]

pub fileclose : ℕ → List File → Option (Close × List File)
fileclose i fs = elim (get_elem? fs i) [
  | none ↦ none
  | some f ↦
      if ltb f.ref 1
      then none
      else if ltb 0 (f.ref - 1)
      then some (still_open, modify fs i (λ f. record f { ref = f.ref - 1 }))
      else some (last_close f, modify fs i (λ f. record f { ref = 0; type = fd_none }))
]

abbrev pub fresh_pipe : List ℕ → Pipe
fresh_pipe bytes = record {
  bytes = bytes;
  nread = 0;
  nwrite = 0;
  readopen = true;
  writeopen = true;
}

-- An end of the pipe in the page `pi`.
abbrev pub pipe_end : ℕ → Bool → File → File
pipe_end pi writable f = record f {
  type = fd_pipe;
  readable = if writable then false else true;
  writable = writable;
  pipe = pi;
}

-- The `bad` label: close a file that has been allocated.
abbrev pub undo : Option ℕ → List File → List File
undo none fs = fs
undo (some i) fs = elim (fileclose i fs) [ none ↦ fs | some (c, fs') ↦ fs' ]

-- `page` is what kalloc returns, 0 where it fails, and `bytes` what it holds. The read end, the write
-- end and the pipe, if there are any.
pub pipealloc : ℕ → List ℕ → List File → Option (ℕ × ℕ × Pipe) × List File
pipealloc page bytes fs =
    let (f0, fs₁) = filealloc fs in
    elim f0 [
      | none ↦ (none, fs₁)
      | some i ↦
          (let (f1, fs₂) = filealloc fs₁ in
            elim f1 [
              | none ↦ (none, undo (some i) fs₂)
              | some j ↦ if page == 0 then (none, undo (some j) (undo (some i) fs₂)) else (
                some (i, j, fresh_pipe bytes),
                modify (modify fs₂ i (pipe_end page false)) j (pipe_end page true),
              )
            ])
    ]
