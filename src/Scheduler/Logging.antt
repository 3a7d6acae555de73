-- ===== src/Scheduler/Logging.antt =====
-- The log lines of the scheduler: schedulerStdoutHandler of
-- conductor-and-worker/conductor/go-conductor/go-db-scheduler/scheduler.go. The values of the package
-- slog are of any type, with what it says of them.
use aws_demo.Base.{◌≡◌, refl, Bool, ◌&&◌, List, [], ◌∷◌, ◌++◌, if◌then◌else◌}
use aws_demo.Text.{Text, codes, is_empty}

-- Resolve of a value, whether it is the zero value, and its String.
pub record Values (V : Type 0) : Type 0 where
  pub resolve : V → V
  pub is_zero : V → Bool
  pub string : V → Text

-- slog.Attr
pub record Attr (V : Type 0) : Type 0 where
  pub key : Text
  pub value : V

-- slog.Record; its time as the layout of the handler prints it.
pub record Record (V : Type 0) : Type 0 where
  pub timestamp : Text
  pub message : Text
  pub attrs : List (Attr V)

-- The attributes that the handler adds to every line; its writer and its mutex are those of `handle`.
pub record StdoutHandler (V : Type 0) : Type 0 where
  pub attrs : List (Attr V)

module _ {V : Type 0} (values : Values V) where
  -- newSchedulerStdoutHandler
  abbrev pub new_scheduler_stdout_handler : StdoutHandler V
  new_scheduler_stdout_handler = record { attrs = [] }

  -- writeAttr: the attribute that is the zero one is left out.
  unfoldable pub write_attr : Attr V → Text
  write_attr attr =
      let v = values.resolve attr.value in
      if is_empty attr.key && values.is_zero v
      then []
      else codes " " ++ (attr.key ++ (codes "=" ++ values.string v))

  unfoldable pub write_attrs : List (Attr V) → Text
  unfolding write_attr
  write_attrs [] = []
  write_attrs (attr ∷ attrs) = write_attr attr ++ write_attrs attrs

  -- The line of Handle
  unfoldable pub line : StdoutHandler V → Record V → Text
  unfolding write_attrs
  line handler r =
      codes "[SHEDULER "
      ++ (r.timestamp
          ++ (codes "] "
              ++ (r.message ++ (write_attrs handler.attrs ++ (write_attrs r.attrs ++ codes "\n")))))

  -- Handle, with the writer's answer to a text.
  unfoldable pub handle :
      {W : Type 0} → (Text → W → Bool × W) → StdoutHandler V → Record V → W → Bool × W
  unfolding line
  handle write handler r w = write (line handler r) w

  -- WithAttrs
  unfoldable pub with_attrs : List (Attr V) → StdoutHandler V → StdoutHandler V
  with_attrs attrs handler = record { attrs = handler.attrs ++ attrs }

  -- WithGroup
  unfoldable pub with_group : Text → StdoutHandler V → StdoutHandler V
  with_group name handler = handler

abbrev texts : Values Text
texts = record { resolve = λ v. v; is_zero = is_empty; string = λ v. v }

writes :
    line texts
      (with_attrs texts
        (record { key = codes "a"; value = codes "1" } ∷ [])
        (new_scheduler_stdout_handler texts))
      (record {
        timestamp = codes "T";
        message = codes "m";
        attrs =
            record { key = []; value = [] } ∷ record { key = codes "b"; value = codes "2" } ∷ [];
      })
    ≡ codes "[SHEDULER T] m a=1 b=2\n"
unfolding line with_attrs
writes = refl
