-- ===== src/Programs/Dispatch.antt =====
-- The programs that a machine starts, each with its set-up and its `main` behind that.
use skweltch.Prelude.{Bool, Option, List, Bytes, ℤ}
use skweltch.Result.{Result}
use skweltch.Json.{Value}
use skweltch.Ports.{SocketCall}
use skweltch.Vent.Randoms.{VentRandom}
use skweltch.Programs.{Launch, ◌>>=◌, Options, or_exit, setup_main, setup_args}
use skweltch.Programs.Mains.{
  run_workcharcount, run_workcharfreq, run_worksleep, run_workxpath, run_sinkavg, run_sinkcharfreq,
  run_sinkstrings, run_sinkelapsed, run_ventrandomnum, run_ventwords, run_ventxml, run_workbash,
  run_sinkbuild, run_polldir, run_pollgit, run_pipecount, run_pipedump,
}

-- The programs, with what their loops give and the files that they open.
pub data Program : Type 0 where
  workcharcount workcharfreq worksleep workxpath : Program
  sinkavg sinkcharfreq sinkstrings sinkelapsed : Bool → Program
  ventrandomnum : (VentRandom → Bool) → Program
  ventwords : (Bytes → Option Bytes) → (Bytes → Bool) → Program
  ventxml : (Bytes → Option Bytes) → (Bytes → ℤ → ℤ → Bytes → Bool) → Program
  workbash : (Bytes → Bool) → Program
  sinkbuild : Program
  polldir : (Bytes → Result ℤ) → (Bytes → ℤ → ℤ → Bool) → Program
  pollgit : (Bytes → Bytes → ℤ → Bool) → Program
  pipecount pipedump : Program

module _ {Real : Type 0} (decimal : ℤ → Bytes) (accepts : SocketCall → Bool) where
  unfoldable pub run_program : Program → Value Real → Value Real → Launch ℤ
  run_program workcharcount = run_workcharcount decimal accepts
  run_program workcharfreq = run_workcharfreq decimal accepts
  run_program worksleep = run_worksleep decimal accepts
  run_program workxpath = run_workxpath decimal accepts
  run_program (sinkavg done) = run_sinkavg decimal accepts done
  run_program (sinkcharfreq done) = run_sinkcharfreq decimal accepts done
  run_program (sinkstrings done) = run_sinkstrings decimal accepts done
  run_program (sinkelapsed done) = run_sinkelapsed decimal accepts done
  run_program (ventrandomnum process) = run_ventrandomnum decimal accepts process
  run_program (ventwords open_file process) = run_ventwords decimal accepts open_file process
  run_program (ventxml open_file process) = run_ventxml decimal accepts open_file process
  run_program (workbash enter) = run_workbash decimal accepts enter
  run_program sinkbuild = run_sinkbuild decimal accepts
  run_program (polldir get_crc process) = run_polldir decimal accepts get_crc process
  run_program (pollgit process) = run_pollgit decimal accepts process
  run_program pipecount = run_pipecount decimal accepts
  run_program pipedump = run_pipedump decimal accepts

module _ {Real : Type 0} (parse : List Bytes → Options) (read : Bytes → Option (Value Real)) where
  -- Four of the programs take their arguments as they are.
  unfoldable pub set_up : Program → List Bytes → Option (Value Real × Value Real)
  set_up workxpath args = setup_args parse read args
  set_up sinkbuild args = setup_args parse read args
  set_up pipecount args = setup_args parse read args
  set_up pipedump args = setup_args parse read args
  set_up other args = setup_main parse read args

  -- `main`
  unfoldable pub main : (ℤ → Bytes) → (SocketCall → Bool) → Program → List Bytes → Launch ℤ
  unfolding set_up run_program
  main decimal accepts p args = do
    both ← or_exit (set_up p args)
    run_program decimal accepts p both.0 both.1
