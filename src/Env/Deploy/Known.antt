-- ===== src/Env/Deploy/Known.antt =====
-- What is known of the calls between two runs of a deploy (internal/env/deploy_run.go).
use mathlib.Core.List.{append_assoc}
use caramelo.Common.{◌≡◌, ap, ◌∙◌, Bool, true, List, Bytes, [], ◌++◌, All-append, All-mono}
use caramelo.Env.Deploy.{Log, DeployRun}
use caramelo.Env.Deploy.Logs.{StopsOnly, IsPush-StopsOnly}
use caramelo.Env.Deploy.Pushes.{Push}
use caramelo.Env.Deploy.Stops.{Asked}
use caramelo.Env.Deploy.Along.{Along}

-- What was asked between two runs, of which only these containers are stopped, and what is known of
-- it.
pub record Did (cs : List Bytes) (Q : Log → Type 0) (r s : DeployRun) : Type 0 where
  pub asked : Asked cs r s
  pub known : Q asked.rest

pub Did-trans :
    (cs : List Bytes) (Q Q' Q'' : Log → Type 0) (r s t : DeployRun)
    → Did cs Q r s
    → Did cs Q' s t
    → ((l l' : Log) → Q l → Q' l' → Q'' (l ++ l'))
    → Did cs Q'' r t
Did-trans cs Q Q' Q'' r s t a b join = record {
  asked = record {
    rest = a.asked.rest ++ b.asked.rest;
    whole =
        b.asked.whole
        ∙ ap (λ (l : Log). l ++ b.asked.rest) a.asked.whole
        ∙ append_assoc r.log a.asked.rest b.asked.rest;
    each = All-append (StopsOnly cs) a.asked.rest b.asked.rest a.asked.each b.asked.each;
  };
  known = join a.asked.rest b.asked.rest a.known b.known;
}

-- Whatever was asked on the way.
pub Did-Along : (r s : DeployRun) → Along r s → Did [] (λ l. Unit {0}) r s
Did-Along r s a = record { asked = a.asked []; known = tt }

pub Push-Did :
    (Q : Log → Type 0) (r : DeployRun) (x : Bool × DeployRun)
    → Push Q r x
    → x.0 ≡ true
    → Did [] Q r x.1
Push-Did Q r x p e = record {
  asked = record {
    rest = p.asks.added;
    whole = ap (λ (u : DeployRun). u.log) p.asks.same;
    each = All-mono (IsPush-StopsOnly []) p.asks.added p.asks.each;
  };
  known = p.on_ok e;
}

-- The run has been changed, but not its log.
pub Did-relabelled : (s on t : DeployRun) → on.log ≡ s.log → Along on t → Did [] (λ l. Unit {0}) s t
Did-relabelled s on t same a =
    let asked = a.asked [] in
    record {
      asked = record {
        rest = asked.rest;
        whole = asked.whole ∙ ap (λ (l : Log). l ++ asked.rest) same;
        each = asked.each;
      };
      known = tt;
    }

pub Did-moved :
    (cs : List Bytes) (Q : Log → Type 0) (r s t : DeployRun)
    → t.log ≡ s.log
    → Did cs Q r s
    → Did cs Q r t
Did-moved cs Q r s t same d = record {
  asked = record { rest = d.asked.rest; whole = same ∙ d.asked.whole; each = d.asked.each };
  known = d.known;
}
