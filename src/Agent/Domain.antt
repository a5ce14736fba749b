-- ===== src/Agent/Domain.antt =====
-- agent/internal/libvirt/vm.go: the definition of a machine for libvirt.
use rig_stack.Prelude.{ℕ, ◌/◌, ◌%◌, String, ◌<>◌, eqb, if◌then◌else◌}
use rig_stack.Prelude.Text.{decimal}
use rig_stack.Agent.Host.{M, ◌>>=◌, draw, pure}

-- A digit of `%x`, and a byte as `%02x`.
unfoldable pub hex_digit : ℕ → String
hex_digit n =
    if eqb n 10
    then "a"
    else if eqb n 11
    then "b"
    else if eqb n 12
    then "c"
    else if eqb n 13
    then "d"
    else if eqb n 14
    then "e"
    else if eqb n 15
    then "f"
    else decimal n

unfoldable pub hex_byte : ℕ → String
unfolding hex_digit
hex_byte b = hex_digit (b / 16) <> hex_digit (b % 16)

-- `RandomMAC`.
unfoldable pub random_mac : M String
unfolding hex_byte
random_mac = do
  (a, b, c) ← draw
  pure ("52:54:00:" <> hex_byte a <> ":" <> hex_byte b <> ":" <> hex_byte c)

-- `VMSpec`, with a MAC.
pub record VmSpec : Type 0 where
  pub id : String
  pub name : String
  pub vcpus : ℕ
  pub ram_mb : ℕ
  pub disk_path : String
  pub cloud_init_path : String
  pub bridge_name : String
  pub mac : String

-- `domainXML`: the template, which escapes nothing.
unfoldable pub domain_xml : VmSpec → String
domain_xml s =
    "\n"
    <> "<domain type='kvm'>\n"
    <> "  <name>"
    <> s.name
    <> "</name>\n"
    <> "  <uuid>"
    <> s.id
    <> "</uuid>\n"
    <> "  <memory unit='MiB'>"
    <> decimal s.ram_mb
    <> "</memory>\n"
    <> "  <currentMemory unit='MiB'>"
    <> decimal s.ram_mb
    <> "</currentMemory>\n"
    <> "  <vcpu placement='static'>"
    <> decimal s.vcpus
    <> "</vcpu>\n"
    <> "\n"
    <> "  <os>\n"
    <> "    <type arch='x86_64' machine='pc-q35-8.2'>hvm</type>\n"
    <> "    <boot dev='hd'/>\n"
    <> "    <boot dev='cdrom'/>\n"
    <> "  </os>\n"
    <> "\n"
    <> "  <features>\n"
    <> "    <acpi/>\n"
    <> "    <apic/>\n"
    <> "  </features>\n"
    <> "\n"
    <> "  <cpu mode='host-passthrough' check='none' migratable='on'/>\n"
    <> "\n"
    <> "  <clock offset='utc'>\n"
    <> "    <timer name='rtc' tickpolicy='catchup'/>\n"
    <> "    <timer name='pit' tickpolicy='delay'/>\n"
    <> "    <timer name='hpet' present='no'/>\n"
    <> "  </clock>\n"
    <> "\n"
    <> "  <on_poweroff>destroy</on_poweroff>\n"
    <> "  <on_reboot>restart</on_reboot>\n"
    <> "  <on_crash>destroy</on_crash>\n"
    <> "\n"
    <> "  <devices>\n"
    <> "    <emulator>/usr/bin/qemu-system-x86_64</emulator>\n"
    <> "\n"
    <> "    <!-- Disco principal da VM -->\n"
    <> "    <disk type='file' device='disk'>\n"
    <> "      <driver name='qemu' type='qcow2' discard='unmap'/>\n"
    <> "      <source file='"
    <> s.disk_path
    <> "'/>\n"
    <> "      <target dev='vda' bus='virtio'/>\n"
    <> "    </disk>\n"
    <> "\n"
    <> "    <!-- Cloud-init ISO para configuração inicial -->\n"
    <> "    <disk type='file' device='cdrom'>\n"
    <> "      <driver name='qemu' type='raw'/>\n"
    <> "      <source file='"
    <> s.cloud_init_path
    <> "'/>\n"
    <> "      <target dev='sda' bus='sata'/>\n"
    <> "      <readonly/>\n"
    <> "    </disk>\n"
    <> "\n"
    <> "    <!-- Interface de rede ligada à bridge da VPC -->\n"
    <> "    <interface type='bridge'>\n"
    <> "      <mac address='"
    <> s.mac
    <> "'/>\n"
    <> "      <source bridge='"
    <> s.bridge_name
    <> "'/>\n"
    <> "      <model type='virtio'/>\n"
    <> "    </interface>\n"
    <> "\n"
    <> "    <!-- Console serial para acesso via virsh console -->\n"
    <> "    <serial type='pty'>\n"
    <> "      <target type='isa-serial' port='0'/>\n"
    <> "    </serial>\n"
    <> "    <console type='pty'>\n"
    <> "      <target type='serial' port='0'/>\n"
    <> "    </console>\n"
    <> "\n"
    <> "    <!-- QEMU guest agent para integração (IP, shutdown gracioso) -->\n"
    <> "    <channel type='unix'>\n"
    <> "      <target type='virtio' name='org.qemu.guest_agent.0'/>\n"
    <> "    </channel>\n"
    <> "\n"
    <> "    <!-- VNC local para acesso emergencial (fase A: só localhost) -->\n"
    <> "    <graphics type='vnc' port='-1' autoport='yes' listen='127.0.0.1'>\n"
    <> "      <listen type='address' address='127.0.0.1'/>\n"
    <> "    </graphics>\n"
    <> "    <video>\n"
    <> "      <model type='vga' vram='16384' heads='1' primary='yes'/>\n"
    <> "    </video>\n"
    <> "\n"
    <> "    <memballoon model='virtio'/>\n"
    <> "    <rng model='virtio'>\n"
    <> "      <backend model='random'>/dev/urandom</backend>\n"
    <> "    </rng>\n"
    <> "  </devices>\n"
    <> "</domain>\n"
