-- ===== src/Tests/UnifiClient.antt =====
-- Runs of the UniFi client: a controller with an access point, a switch, and three clients.
use bandwidth_monitor.Common.{
  ◌≡◌, refl, arith, inl, inr, true, false, none, some, List, [], ◌∷◌, String, pos, negsuc,
  string_eq,
}
use bandwidth_monitor.Sorting.Insertion.{insertion}
use bandwidth_monitor.Unifi.{Reply}
use bandwidth_monitor.Unifi.Summaries.{RawDevice, RawClient, Previous, build_summary, rates}
use bandwidth_monitor.Unifi.Summaries.Rates.{RatesOk, build_summary-RatesOk}
use bandwidth_monitor.Unifi.Summaries.Exact.{gained, rates-gained}
use bandwidth_monitor.Unifi.Client.{Client, World, Get, new, polls}
use bandwidth_monitor.Unifi.Client.Memory.{Remembers, polls-Remembers}
use bandwidth_monitor.Unifi.Client.Failures.{polls-failed}
use bandwidth_monitor.Tests.Samples.{whole, whole-Laws, minute}

abbrev pub attic : RawDevice
attic = record {
  kind = "uap";
  name = "attic";
  model = "U6";
  mac = "aa:01";
  ip = "192.168.1.2";
  version = "6.5";
  state = pos 1;
  num_sta = pos 2;
  uptime = pos 1000;
  tx_bytes = pos 9_000;
  rx_bytes = pos 400;
}

abbrev pub switch_box : RawDevice
switch_box = record attic { kind = "usw"; name = "switch"; mac = "aa:02" }

abbrev pub phone : RawClient
phone = record {
  mac = "bb:01";
  hostname = "phone";
  ip = "192.168.1.7";
  essid = "home";
  is_wired = false;
  tx_bytes = pos 700;
  rx_bytes = pos 300;
  ap_mac = "aa:01";
  signal = negsuc 50;
  channel = pos 36;
  radio = "na";
  tx_rate = pos 0;
  rx_rate = pos 0;
}

abbrev pub tablet : RawClient
tablet = record phone { mac = "bb:02"; hostname = "tablet"; essid = "guest"; tx_bytes = pos 50 }

abbrev pub desktop : RawClient
desktop = record phone { mac = "bb:03"; hostname = "desktop"; is_wired = true }

abbrev pub devices : List RawDevice
devices = attic ∷ switch_box ∷ []

abbrev pub stations : List RawClient
stations = phone ∷ desktop ∷ tablet ∷ []

-- The access point has restarted: it had received more bytes before.
abbrev pub before : Previous
before = record {
  ap = ("aa:01", record { tx = pos 3_000; rx = pos 500 }) ∷ [];
  ssid = ("home", record { tx = pos 100; rx = pos 100 }) ∷ [];
  cli = [];
}

abbrev pub answer : {A : Type 0} → A → Get A
answer a = λ url token. some (record { status = 200; body = some a })

abbrev pub refuse : {A : Type 0} → Get A
refuse = λ url token. some (record { status = 401; body = none })

abbrev pub accept : String → Reply
accept path = record { status = 200; csrf = "token" }

abbrev pub working : World
working = record {
  post = λ path. some (accept path);
  relogin = λ path. some (accept path);
  devices = answer devices;
  devices_again = answer devices;
  clients = answer stations;
}

abbrev refusing : World
refusing = record working { devices = refuse; devices_again = refuse }

abbrev half_way : World
half_way = record working { clients = λ url token. none }

abbrev pub fresh : Client whole
fresh = new whole "https://unifi" "user" "pass" "" 15

build_summary-RatesOk_example :
    RatesOk whole (build_summary whole insertion before (pos 15) devices stations)
build_summary-RatesOk_example =
    build_summary-RatesOk whole whole-Laws insertion before (pos 15) devices stations

rates-gained_example :
    rates whole
      (whole.seconds (pos minute))
      (some (record { tx = pos 3_000; rx = pos 500 }))
      (pos 9_000)
      (pos 400)
    ≡ (gained whole (pos minute) 9_000 3_000, gained whole (pos minute) 400 500)
rates-gained_example =
    rates-gained whole whole-Laws (pos minute) 9_000 400 3_000 500 refl (omega arith) (omega arith)
      (omega arith) (omega arith)

polls-Remembers_example :
    Remembers whole (polls whole insertion ((working, minute) ∷ (refusing, minute) ∷ []) fresh)
unfolding new
polls-Remembers_example =
    polls-Remembers whole insertion ((working, minute) ∷ (refusing, minute) ∷ []) "https://unifi"
      "user" "pass" "" 15

polls-failed_example :
    polls whole insertion ((refusing, minute) ∷ (half_way, minute) ∷ []) fresh ≡ record fresh {
      session =
          (polls whole insertion ((refusing, minute) ∷ (half_way, minute) ∷ []) fresh).session;
    }
polls-failed_example =
    polls-failed whole insertion ((refusing, minute) ∷ (half_way, minute) ∷ []) fresh
      (inr ((λ url token. refl), (λ url token. refl)), (inl (λ url token. refl), tt))
