-- ===== src/Machine/Commands.antt =====
-- What the server does with the commands of machine/machinecmd.cpp.
use skweltch.Prelude.{
  ℕ, ◌≡◌, refl, ap, sym, ◌∙◌, inl, inr, Bool, false, Option, none, some, Bytes, codes, equal, List,
  [], ℤ, pos, ◌==ℤ◌, Bool-cases,
}
use skweltch.Json.{Value, LexicalCast}
use skweltch.Machine.{
  MachineMsg, command_msg, start_msg, Loaded, Server, Round, stop_running, load_and_start, obey,
}

-- Whether a message names a file.
abbrev names_file : Option MachineMsg → Bool
names_file none = false
names_file (some m) = m.0 ==ℤ pos 2

command_msg-names_file :
    (cmd : Bytes) (json_config machine_id : Option Bytes)
    → names_file (command_msg cmd json_config machine_id) ≡ false
unfolding command_msg
command_msg-names_file cmd json_config machine_id = elim (Bool-cases (equal cmd (codes "start"))) [
  | inl starts ↦ rw (command_msg, starts) (by_option json_config machine_id)
  | inr other ↦ elim (Bool-cases (equal cmd (codes "vent"))) [
    | inl vents ↦ rw (command_msg, other, vents) refl
    | inr other' ↦ elim (Bool-cases (equal cmd (codes "stop"))) [
      | inl stops ↦ rw (command_msg, other, other', stops) refl
      | inr other'' ↦ elim (Bool-cases (equal cmd (codes "quit"))) [
        | inl quits ↦ rw (command_msg, other, other', other'', quits) refl
        | inr none_known ↦ rw (command_msg, other, other', other'', none_known) refl
      ]
    ]
  ]
]
  where
    by_option :
        (c i : Option Bytes)
        → names_file (elim c [
          | some config ↦ some (start_msg config)
          | none ↦ elim i [ some id ↦ some (start_msg id) | none ↦ some (pos 0, []) ]
        ])
          ≡ false
    by_option (some config) i = refl
    by_option none (some id) = refl
    by_option none none = refl

module _ {Real : Type 0} (writer : Value Real → Bytes) (cast : LexicalCast Real)
    (split : Bytes → List Bytes) (control : ℤ) (decimal : ℤ → Bytes)
    (spawn : List Bytes → Bytes → ℕ) where
  obey-code :
      (r : Round Real) (file : Bytes → Loaded Real) (code : ℤ) (text : Bytes) (s : Server Real)
      → (code ==ℤ pos 2) ≡ false
      → obey writer cast split control decimal spawn (record r { file = file }) (code, text) s
        ≡ obey writer cast split control decimal spawn r (code, text) s
  unfolding obey
  obey-code r file code text s h = elim (Bool-cases (code ==ℤ pos 1)) [
    | inl one ↦ rw (obey, one) refl
    | inr other ↦ rw (obey, h, other) refl
  ]

  -- What machinecmd sends never makes the server read a file: files of other contents make no
  -- difference. For `start` with a configuration file the server asks the database for a machine of
  -- the file's name.
  pub obey-command_msg :
      (cmd : Bytes) (json_config machine_id : Option Bytes) (m : MachineMsg) (r : Round Real)
      (file : Bytes → Loaded Real) (config : Bytes) (s : Server Real)
      → command_msg cmd json_config machine_id ≡ some m
      → (obey writer cast split control decimal spawn (record r { file = file }) m s
          ≡ obey writer cast split control decimal spawn r m s)
        × (command_msg (codes "start") (some config) machine_id ≡ some (start_msg config))
        × (obey writer cast split control decimal spawn r (start_msg config) s
            ≡ stop_running r.kill_sent s
                (load_and_start writer cast split control decimal spawn (r.query config)))
  unfolding obey command_msg equal
  obey-command_msg cmd json_config machine_id m r file config s e =
      let no_file : (m.0 ==ℤ pos 2) ≡ false =
        ap names_file (sym e) ∙ command_msg-names_file cmd json_config machine_id in
      (obey-code r file m.0 m.1 s no_file, refl, refl)
